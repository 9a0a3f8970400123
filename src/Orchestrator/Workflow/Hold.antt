-- ===== src/Orchestrator/Workflow/Hold.antt =====
-- The ops hold of LoanOriginationWorkflow: the flag follows the signals, and nothing is submitted
-- to a lender while the application is held.
use project_k_platform.Prelude.{
  String, ◌≡◌, refl, Bool, true, false, not, Option, List, [], ◌∷◌, arith, Bool-cases, inl, inr,
  sym, ◌∙◌, is_some, or_default,
}
use project_k_platform.Prelude.Eq.{◌==◌, string_eq}
use project_k_platform.Orchestrator.Types.{
  EvaluateDecisionInput, LoanOriginationInput, WorkflowInput, SubmitResult,
}
use project_k_platform.Orchestrator.Workflow.{
  World, State, Fields, handle, Step, go, done, raised, Stage, Event, called, signalled, Signal,
  lender_response_received, ops_hold_requested, ops_hold_released, Call, check_dpdp_consent,
  evaluate_decision, fetch_aa_data, submit_to_lender, submit_ocen_loan_request, ◌>>=◌, continue,
  deliver, execute_activity, wait_condition, consent_gate, d0_gate, aa_gate, d1_gate, d2_stage,
  d3_gate, gates, hold_gate, submit, submit_network, await_lender, submission, stages, start, run,
  unpack, decide, hold_over, response_over, ◌>>◌,
}

-- The hold that a log, newest first, leaves in force.
abbrev pub held : List Event → Bool
held [] = false
held (signalled (ops_hold_requested why) ∷ l) = true
held (signalled ops_hold_released ∷ l) = false
held (signalled (lender_response_received r) ∷ l) = held l
held (called c ∷ l) = held l

-- Each call of `submit_to_lender` was made at a moment with no hold in force.
abbrev pub Released : List Event → Type 0
Released [] = Unit
Released (signalled g ∷ l) = Released l
Released (called (submit_to_lender x) ∷ l) = (held l ≡ false) × Released l
Released (called (check_dpdp_consent x) ∷ l) = Released l
Released (called (evaluate_decision x) ∷ l) = Released l
Released (called (fetch_aa_data x) ∷ l) = Released l
Released (called (submit_ocen_loan_request x) ∷ l) = Released l

-- The flag is what the log says, and the log is as it should be.
record Tracks (s : State) : Type 0 where
  flag : s.fields.ops_hold ≡ held s.log
  released : Released s.log

signal-Tracks :
    (g : Signal) (s : State)
    → Tracks s
    → Tracks (record { fields = handle s.fields g; log = signalled g ∷ s.log })
signal-Tracks (lender_response_received r) s t = record { flag = t.flag; released = t.released }
signal-Tracks (ops_hold_requested why) s t = record { flag = refl; released = t.released }
signal-Tracks ops_hold_released s t = record { flag = refl; released = t.released }

deliver-Tracks : (gs : List Signal) (s : State) → Tracks s → Tracks (deliver gs s)
unfolding deliver
deliver-Tracks [] s t = t
deliver-Tracks (g ∷ gs) s t = deliver-Tracks gs _ (signal-Tracks g s t)

-- A wait keeps the invariant, and if it ends in time its condition holds.
wait_condition-Tracks :
    (cond : Fields → Bool) (gs : List (List Signal)) (s : State)
    → Tracks s
    → Tracks (wait_condition cond gs s).1
      × ((wait_condition cond gs s).0 ≡ cond (wait_condition cond gs s).1.fields)
unfolding wait_condition
wait_condition-Tracks cond [] s t = (t, refl)
wait_condition-Tracks cond (g ∷ gs) s t = elim (Bool-cases (cond s.fields)) [
  | inl e ↦ rw e (t, sym e)
  | inr e ↦ rw e (wait_condition-Tracks cond gs _ (deliver-Tracks g s t))
]

abbrev Keeps : {A : Type 0} → Stage A → Type 0
Keeps m = (s : State) → Tracks s → Tracks (m s).1

bind-Keeps :
    {A B : Type 0} (m : Stage A) (k : A → Stage B)
    → Keeps m
    → ((a : A) → Keeps (k a))
    → Keeps (m >>= k)
unfolding ◌>>=◌
bind-Keeps {A} {B} m k hm hk s t = split (m s) (hm s t)
  where
    split : (r : Step A × State) → Tracks r.1 → Tracks (continue k r).1
    split (go a, u) e = hk a u e
    split (done x, u) e = e
    split (raised, u) e = e

execute_activity-Keeps :
    {A : Type 0} (w : World) (c : Call) (reply : Option A)
    → ((s : State) → Tracks s → Tracks (record s { log = called c ∷ s.log }))
    → Keeps (execute_activity w c reply)
unfolding execute_activity
execute_activity-Keeps w c reply h s t = deliver-Tracks (w.during c) _ (h s t)

module _ (w : World) (i : LoanOriginationInput) where
  consent_gate-Keeps : Keeps (consent_gate w i)
  unfolding consent_gate
  consent_gate-Keeps = elim (Bool-cases (i.data_principal_id == "")) [
    | inl e ↦ rw e (λ s t. t)
    | inr e ↦ rw e (
        bind-Keeps _ _
          (execute_activity-Keeps w _ _ (λ s t. record { flag = t.flag; released = t.released }))
          (λ r s t. ground arith))
  ]

  decision-Keeps : (e : EvaluateDecisionInput) → Keeps (decide w i e)
  decision-Keeps e =
      execute_activity-Keeps w _ _ (λ s t. record { flag = t.flag; released = t.released })

  d0_gate-Keeps : Keeps (d0_gate w i)
  unfolding d0_gate
  d0_gate-Keeps = bind-Keeps _ _ (decision-Keeps _) (λ r s t. ground arith)

  aa_gate-Keeps : Keeps (aa_gate w i)
  unfolding aa_gate
  aa_gate-Keeps =
      bind-Keeps _ _
        (execute_activity-Keeps w _ _ (λ s t. record { flag = t.flag; released = t.released }))
        (λ r s t. ground arith)

  d1_gate-Keeps : Keeps (d1_gate w i)
  unfolding d1_gate
  d1_gate-Keeps = bind-Keeps _ _ (decision-Keeps _) (λ r s t. ground arith)

  d2_stage-Keeps : Keeps (d2_stage w i)
  unfolding d2_stage
  d2_stage-Keeps = decision-Keeps _

  d3_gate-Keeps : Keeps (d3_gate w i)
  unfolding d3_gate
  d3_gate-Keeps = bind-Keeps _ _ (decision-Keeps _) (λ r s t. ground arith)

  gates-Keeps : Keeps (gates w i)
  unfolding gates
  gates-Keeps = bind-Keeps _ _ consent_gate-Keeps λ _. bind-Keeps _ _ d0_gate-Keeps λ _.
      bind-Keeps _ _ aa_gate-Keeps
        λ _. bind-Keeps _ _ d1_gate-Keeps λ _. bind-Keeps _ _ d2_stage-Keeps λ _. d3_gate-Keeps

  -- The gate keeps the invariant, and goes on only with the hold released.
  hold_gate-Tracks :
      (s : State)
      → Tracks s
      → Tracks (hold_gate w i s).1
        × ((hold_gate w i s).0 ≡ go tt → (hold_gate w i s).1.fields.ops_hold ≡ false)
  unfolding hold_gate
  hold_gate-Tracks s t = elim (Bool-cases s.fields.ops_hold) [
    | inr e ↦ simp e (t, λ _. refl)
    | inl e ↦ simp e (
        split (wait_condition (λ f. not f.ops_hold) w.hold_wait s)
          (wait_condition-Tracks (λ f. not f.ops_hold) w.hold_wait s t))
  ]
    where
      split :
          (r : Bool × State)
          → Tracks r.1 × (r.0 ≡ not r.1.fields.ops_hold)
          → Tracks (hold_over w i r).1
            × ((hold_over w i r).0 ≡ go tt → (hold_over w i r).1.fields.ops_hold ≡ false)
      split (true, u) h = (h.0, λ _. ground arith)
      split (false, u) h = (h.0, λ e. cc)

  submit-Tracks :
      (ls : List String) (s : State)
      → Tracks s
      → s.fields.ops_hold ≡ false
      → Tracks (submit w i ls s).1
  unfolding submit execute_activity
  submit-Tracks ls s t e =
      deliver-Tracks _ _ (record { flag = t.flag; released = (sym t.flag ∙ e, t.released) })

  submit_network-Keeps : Keeps (submit_network w i)
  unfolding submit_network
  submit_network-Keeps =
      execute_activity-Keeps w _ _ (λ s t. record { flag = t.flag; released = t.released })

  await_lender-Keeps : (ls : List String) (r : SubmitResult) → Keeps (await_lender w i ls r)
  unfolding await_lender
  await_lender-Keeps ls r s t = elim (Bool-cases (or_default r.offer_received false)) [
    | inl e ↦ rw e t
    | inr e ↦ rw e (
        split (wait_condition (λ f. is_some f.lender_response) w.lender_wait s)
          (wait_condition-Tracks (λ f. is_some f.lender_response) w.lender_wait s t).0)
  ]
    where
      split : (b : Bool × State) → Tracks b.1 → Tracks (response_over w i ls b).1
      split (true, u) h = h
      split (false, u) h = h

  submitting-Tracks :
      (ls : List String) (s : State)
      → Tracks s
      → s.fields.ops_hold ≡ false
      → Tracks ((submit w i ls >>= λ r. submit_network w i >> await_lender w i ls r) s).1
  unfolding ◌>>=◌
  submitting-Tracks ls s t e = split (submit w i ls s) (submit-Tracks ls s t e)
    where
      split :
          (r : Step SubmitResult × State)
          → Tracks r.1
          → Tracks (continue (λ r. submit_network w i >> await_lender w i ls r) r).1
      split (go r, u) h =
          bind-Keeps (submit_network w i) (λ _. await_lender w i ls r) submit_network-Keeps
            (λ _. await_lender-Keeps ls r) u h
      split (done x, u) h = h
      split (raised, u) h = h

  submission-Keeps : (ls : List String) → Keeps (submission w i ls)
  unfolding submission ◌>>=◌
  submission-Keeps ls s t = split (hold_gate w i s) (hold_gate-Tracks s t)
    where
      split :
          (r : Step Unit × State)
          → Tracks r.1 × (r.0 ≡ go tt → r.1.fields.ops_hold ≡ false)
          → Tracks
              (continue
                (λ _. submit w i ls >>= λ r. submit_network w i >> await_lender w i ls r)
                r).1
      split (go x, u) h = submitting-Tracks ls u h.0 (h.1 refl)
      split (done x, u) h = h.0
      split (raised, u) h = h.0

-- In every run, whenever `submit_to_lender` is called no ops hold is in force: the last hold or
-- release signal that was handled before the call, if there was one, is a release.
pub run-Released : (w : World) (input : WorkflowInput) → Released (run w input).1.log
unfolding run stages
run-Released w input =
    (bind-Keeps (gates w (unpack input)) (submission w (unpack input))
      (gates-Keeps w (unpack input)) (submission-Keeps w (unpack input)) start
      (record { flag = refl; released = tt })).released
