-- ===== src/Sandbox/Scenario.antt =====
-- sandbox/scenarios/loader.py: a scenario's steps and the responses that they script. A response is
-- of any type `R`; the module's global `_active_scenario` is an argument.
use project_k_platform.Prelude.{
  ℕ, suc, ◌+◌, String, ◌≡◌, refl, Bool, true, ◌&&◌, Option, none, some, List, [], ◌∷◌, leb, length,
  arith, eq_iff, ap, if◌then◌else◌, or_default,
}
use project_k_platform.Prelude.Dict.{Dict, lookup, insert, lookup-insert}
use project_k_platform.Prelude.Eq.{◌==◌, string_eq, nat_eq}

pub record Step (R : Type 0) : Type 0 where
  pub action : String
  pub call_number : Option ℕ
  pub response : Option R

pub record Scenario (R : Type 0) : Type 0 where
  pub id : String
  pub steps : List (Step R)

-- `ScenarioState`
pub record ScenarioState (R : Type 0) : Type 0 where
  pub scenario : Scenario R
  pub call_counts : Dict String ℕ

abbrev pub number_matches : Option ℕ → ℕ → Bool
number_matches none call = true
number_matches (some n) call = n == call

abbrev pub sum_counts : Dict String ℕ → ℕ
sum_counts [] = 0
sum_counts ((k, n) ∷ m) = n + sum_counts m

sum_counts-insert :
    (k : String) (n : ℕ) (m : Dict String ℕ)
    → sum_counts (insert k n m) + or_default (lookup k m) 0 ≡ sum_counts m + n
sum_counts-insert k n [] = omega arith
sum_counts-insert k n ((j, v) ∷ m) = ground (arith, sum_counts-insert k n m)

-- How often `a` stands in `actions`.
abbrev pub occurrences : String → List String → ℕ
occurrences a [] = 0
occurrences a (b ∷ bs) = if b == a then suc (occurrences a bs) else occurrences a bs

module _ {R : Type 0} where
  abbrev pub new_state : Scenario R → ScenarioState R
  new_state s = record { scenario = s; call_counts = [] }

  -- The loop of `next_response`: the first step of that action whose call number, if it has one, is
  -- this call's.
  unfoldable pub find_response : List (Step R) → String → ℕ → Option R
  find_response [] action call = none
  find_response (st ∷ sts) action call =
      if st.action == action && number_matches st.call_number call
      then st.response
      else find_response sts action call

  abbrev pub calls : ScenarioState R → String → ℕ
  calls s action = or_default (lookup action s.call_counts) 0

  unfoldable pub next_response : String → ScenarioState R → Option R × ScenarioState R
  unfolding find_response
  next_response action s =
      let call = calls s action + 1 in
      (
        find_response s.scenario.steps action call,
        record s { call_counts = insert action call s.call_counts },
      )

  unfoldable pub is_complete : ScenarioState R → Bool
  is_complete s = leb (length s.scenario.steps) (sum_counts s.call_counts)

  -- `load_scenario` on a registry that exists: the state to make active, or none.
  unfoldable pub load_scenario : String → List (Scenario R) → Option (ScenarioState R)
  load_scenario id [] = none
  load_scenario id (s ∷ ss) =
      if id == "" then none else if s.id == id then some (new_state s) else load_scenario id ss

  -- `get_active_scenario`
  unfoldable pub get_active_scenario :
      String → List (Scenario R) → Option (ScenarioState R) → Option (ScenarioState R)
  unfolding load_scenario
  get_active_scenario id registry none = load_scenario id registry
  get_active_scenario id registry (some s) = some s

  -- The calls of `actions`, one after another.
  unfoldable pub replay : List String → ScenarioState R → ScenarioState R
  replay [] s = s
  replay (a ∷ as') s = replay as' (next_response a s).1

  sum_counts-replay :
      (actions : List String) (s : ScenarioState R)
      → sum_counts (replay actions s).call_counts ≡ sum_counts s.call_counts + length actions
  unfolding replay next_response
  sum_counts-replay [] s = omega arith
  sum_counts-replay (a ∷ as') s = omega (
    arith,
    sum_counts-replay as' (next_response a s).1,
    sum_counts-insert a (calls s a + 1) s.call_counts,
  )

  calls-replay :
      (a : String) (actions : List String) (s : ScenarioState R)
      → calls (replay actions s) a ≡ calls s a + occurrences a actions
  unfolding replay next_response
  calls-replay a [] s = omega arith
  calls-replay a (b ∷ bs) s = ground (
    arith,
    calls-replay a bs (next_response b s).1,
    lookup-insert b a (calls s b + 1) s.call_counts,
    eq_iff b a,
  )

  scenario-replay :
      (actions : List String) (s : ScenarioState R) → (replay actions s).scenario ≡ s.scenario
  unfolding replay next_response
  scenario-replay [] s = refl
  scenario-replay (a ∷ as') s = scenario-replay as' (next_response a s).1

-- After any calls on a fresh scenario, the next call of `a` is answered by the first step scripted for
-- `a` at its own number, one more than the earlier calls of `a`, whatever other actions were called;
-- and the scenario is complete exactly if there were at least as many calls as it has steps.
pub next_response-replay :
    {R : Type 0} (s : Scenario R) (a : String) (actions : List String)
    → ((next_response a (replay actions (new_state s))).0
        ≡ find_response s.steps a (occurrences a actions + 1))
      × (is_complete (replay actions (new_state s)) ≡ leb (length s.steps) (length actions))
unfolding next_response is_complete
next_response-replay s a actions =
    rw
      (
        calls-replay a actions (new_state s),
        scenario-replay actions (new_state s),
        sum_counts-replay actions (new_state s),
      )
      (
        ap (λ k. find_response s.steps a k) (omega arith),
        ap (λ k. leb (length s.steps) k) (omega arith),
      )
