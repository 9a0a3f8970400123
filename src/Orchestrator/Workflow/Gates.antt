-- ===== src/Orchestrator/Workflow/Gates.antt =====
-- What has to pass before LoanOriginationWorkflow submits to a lender.
use project_k_platform.Prelude.{
  String, ◌≡◌, refl, ◌≢◌, ◌⊎◌, inl, inr, Bool, true, false, ◌||◌, Option, some, List, [], ◌∷◌,
  arith, eq_iff, any, or_default, Option-cases, Bool-cases, ◌∙◌, ap,
}
use project_k_platform.Prelude.Eq.{◌==◌, string_eq}
use project_k_platform.Orchestrator.Types.{
  EvaluateDecisionInput, DecisionResult, ConsentResult, AaResult, LoanOriginationInput,
  WorkflowInput,
}
use project_k_platform.Orchestrator.Workflow.{
  World, State, Step, go, done, raised, Stage, rejected, Event, called, Signal, Call,
  check_dpdp_consent, evaluate_decision, submit_to_lender, submit_ocen_loan_request, ◌>>=◌, deliver,
  execute_activity, unpack, consent_input, d0_input, d1_input, d2_input, d3_input, aa_input,
  consent_gate, d0_gate, aa_gate, d1_gate, d2_stage, d3_gate, judge_outcome, gates, submission,
  stages, start, run, continue,
}

abbrev pub is_submission : Event → Bool
is_submission (called (submit_to_lender x)) = true
is_submission (called (submit_ocen_loan_request x)) = true
is_submission e = false

abbrev pub submitted : State → Bool
submitted s = any is_submission s.log

-- What the activities gave in a run that passed every gate and matched `lenders`.
pub record Passed (w : World) (i : LoanOriginationInput) (lenders : List String) : Type 0 where
  pub consent :
      (i.data_principal_id ≡ "")
      ⊎ ((r : ConsentResult) × (w.consent (consent_input i) ≡ some r) × (r.allowed ≡ true))
  pub d0 : (r : DecisionResult) × (w.decision (d0_input i) ≡ some r) × (r.outcome ≢ "fail")
  pub aa : (r : AaResult) × (w.aa (aa_input i) ≡ some r) × (r.data_received ≡ true)
  pub d1 : (r : DecisionResult) × (w.decision (d1_input i) ≡ some r) × (r.outcome ≢ "fail")
  pub d2 : (r : DecisionResult) × (w.decision (d2_input i) ≡ some r)
  pub d3 :
      (r : DecisionResult) × (w.decision (d3_input i) ≡ some r)
      × (or_default r.matched_lender_ids [] ≡ lenders)
  pub matched : lenders ≢ []

-- Inversion of a stage that goes on.
pub bind-eq-go :
    {A B : Type 0} (m : Stage A) (k : A → Stage B) (s : State) {b : B}
    → ((m >>= k) s).0 ≡ go b
    → (a : A) × ((m s).0 ≡ go a) × ((k a (m s).1).0 ≡ go b)
unfolding ◌>>=◌
bind-eq-go {A} {B} m k s {b} h = split (m s) h
  where
    split :
        (r : Step A × State)
        → (continue k r).0 ≡ go b
        → (a : A) × (r.0 ≡ go a) × ((k a r.1).0 ≡ go b)
    split (go a, t) e = (a, refl, e)
    split (done x, t) e = cc
    split (raised, t) e = cc

-- A stage that submits nothing.
abbrev Quiet : {A : Type 0} → Stage A → Type 0
Quiet m = (s : State) → submitted (m s).1 ≡ submitted s

bind-Quiet :
    {A B : Type 0} (m : Stage A) (k : A → Stage B)
    → Quiet m
    → ((a : A) → Quiet (k a))
    → Quiet (m >>= k)
unfolding ◌>>=◌
bind-Quiet {A} {B} m k hm hk s = split (m s) (hm s)
  where
    split :
        (r : Step A × State)
        → submitted r.1 ≡ submitted s
        → submitted (continue k r).1 ≡ submitted s
    split (go a, t) e = hk a t ∙ e
    split (done x, t) e = e
    split (raised, t) e = e

submitted-deliver : (gs : List Signal) (s : State) → submitted (deliver gs s) ≡ submitted s
unfolding deliver
submitted-deliver [] s = refl
submitted-deliver (g ∷ gs) s = submitted-deliver gs _

execute_activity-Quiet :
    {A : Type 0} (w : World) (c : Call) (reply : Option A)
    → is_submission (called c) ≡ false
    → Quiet (execute_activity w c reply)
unfolding execute_activity
execute_activity-Quiet w c reply h s =
    submitted-deliver (w.during c) (record s { log = called c ∷ s.log })
    ∙ ap (λ b. b || submitted s) h

module _ (w : World) (i : LoanOriginationInput) where
  consent_gate-Quiet : Quiet (consent_gate w i)
  unfolding consent_gate
  consent_gate-Quiet = elim (Bool-cases (i.data_principal_id == "")) [
    | inl e ↦ rw e (λ s. refl)
    | inr e ↦ rw e (bind-Quiet _ _ (execute_activity-Quiet w _ _ refl) (λ r s. ground arith))
  ]

  d0_gate-Quiet : Quiet (d0_gate w i)
  unfolding d0_gate
  d0_gate-Quiet = bind-Quiet _ _ (execute_activity-Quiet w _ _ refl) (λ r s. ground arith)

  aa_gate-Quiet : Quiet (aa_gate w i)
  unfolding aa_gate
  aa_gate-Quiet = bind-Quiet _ _ (execute_activity-Quiet w _ _ refl) (λ r s. ground arith)

  d1_gate-Quiet : Quiet (d1_gate w i)
  unfolding d1_gate
  d1_gate-Quiet = bind-Quiet _ _ (execute_activity-Quiet w _ _ refl) (λ r s. ground arith)

  d2_stage-Quiet : Quiet (d2_stage w i)
  unfolding d2_stage
  d2_stage-Quiet = execute_activity-Quiet w _ _ refl

  d3_gate-Quiet : Quiet (d3_gate w i)
  unfolding d3_gate
  d3_gate-Quiet = bind-Quiet _ _ (execute_activity-Quiet w _ _ refl) (λ r s. ground arith)

  gates-Quiet : Quiet (gates w i)
  unfolding gates
  gates-Quiet = bind-Quiet _ _ consent_gate-Quiet λ _. bind-Quiet _ _ d0_gate-Quiet λ _.
      bind-Quiet _ _ aa_gate-Quiet
        λ _. bind-Quiet _ _ d1_gate-Quiet λ _. bind-Quiet _ _ d2_stage-Quiet λ _. d3_gate-Quiet

  consent_gate-eq-go :
      (s : State)
      → (consent_gate w i s).0 ≡ go tt
      → (i.data_principal_id ≡ "")
        ⊎ ((r : ConsentResult) × (w.consent (consent_input i) ≡ some r) × (r.allowed ≡ true))
  unfolding consent_gate execute_activity ◌>>=◌
  consent_gate-eq-go s h = elim (Option-cases (w.consent (consent_input i))) [
    | inl e ↦ ground (arith, eq_iff i.data_principal_id "")
    | inr (r, e) ↦ elim (Bool-cases (i.data_principal_id == "")) [
      | inl q ↦ inl ((eq_iff _ _).0 q)
      | inr q ↦ inr (r, e, ground arith)
    ]
  ]

  decision-eq-go :
      (e : EvaluateDecisionInput) (gate default : String) (s : State)
      → ((execute_activity w (evaluate_decision e) (w.decision e)
            >>= judge_outcome w i gate default)
          s).0
        ≡ go tt
      → (r : DecisionResult) × (w.decision e ≡ some r) × (r.outcome ≢ "fail")
  unfolding execute_activity ◌>>=◌
  decision-eq-go e gate default s h = elim (Option-cases (w.decision e)) [
    | inl q ↦ ground arith
    | inr (r, q) ↦ (r, q, ground (arith, eq_iff r.outcome "fail"))
  ]

  aa_gate-eq-go :
      (s : State)
      → (aa_gate w i s).0 ≡ go tt
      → (r : AaResult) × (w.aa (aa_input i) ≡ some r) × (r.data_received ≡ true)
  unfolding aa_gate execute_activity ◌>>=◌
  aa_gate-eq-go s h = elim (Option-cases (w.aa (aa_input i))) [
    | inl q ↦ ground arith
    | inr (r, q) ↦ (r, q, ground arith)
  ]

  d2_stage-eq-go :
      (s : State) {r : DecisionResult}
      → (d2_stage w i s).0 ≡ go r
      → w.decision (d2_input i) ≡ some r
  unfolding d2_stage execute_activity
  d2_stage-eq-go s h = ground arith

  d3_gate-eq-go :
      (s : State) {ls : List String}
      → (d3_gate w i s).0 ≡ go ls
      → ((r : DecisionResult) × (w.decision (d3_input i) ≡ some r)
          × (or_default r.matched_lender_ids [] ≡ ls))
        × (ls ≢ [])
  unfolding d3_gate execute_activity ◌>>=◌
  d3_gate-eq-go s h = elim (Option-cases (w.decision (d3_input i))) [
    | inl q ↦ ground arith
    | inr (r, q) ↦ ((r, q, ground arith), ground arith)
  ]

  gates-eq-go : (s : State) {ls : List String} → (gates w i s).0 ≡ go ls → Passed w i ls
  unfolding gates d0_gate d1_gate
  gates-eq-go s h =
      let (_, c, h₁) = bind-eq-go (consent_gate w i) _ s h in
      let (_, d0, h₂) = bind-eq-go (d0_gate w i) _ _ h₁ in
      let (_, a, h₃) = bind-eq-go (aa_gate w i) _ _ h₂ in
      let (_, d1, h₄) = bind-eq-go (d1_gate w i) _ _ h₃ in
      let (r, d2, h₅) = bind-eq-go (d2_stage w i) _ _ h₄ in
      let (d3, m) = d3_gate-eq-go _ h₅ in
      record {
        consent = consent_gate-eq-go s c;
        d0 = decision-eq-go (d0_input i) _ _ _ d0;
        aa = aa_gate-eq-go _ a;
        d1 = decision-eq-go (d1_input i) _ _ _ d1;
        d2 = (r, d2_stage-eq-go _ d2);
        d3 = d3;
        matched = m;
      }

  -- A run that does not pass the gates ends as they end, and has submitted nothing.
  stages-submitted : submitted (stages w i start).1 ≡ true → (ls : List String) × Passed w i ls
  unfolding stages ◌>>=◌
  stages-submitted h = split (gates w i start) refl h
    where
      split :
          (r : Step (List String) × State)
          → gates w i start ≡ r
          → submitted (continue (submission w i) r).1 ≡ true
          → (ls : List String) × Passed w i ls
      split (go ls, t) e k = (ls, gates-eq-go start (ap (λ p. p.0) e))
      split (done x, t) e k = cc (gates-Quiet start, e, k)
      split (raised, t) e k = cc (gates-Quiet start, e, k)

-- If a run calls `submit_to_lender` or `submit_ocen_loan_request`, then it passed every gate: DPDP
-- consent was allowed (or no data principal was named), D0 and D1 did not fail, the account
-- aggregator's data was received, D2 was evaluated, and D3 matched at least one lender.
pub run-submitted :
    (w : World) (input : WorkflowInput)
    → submitted (run w input).1 ≡ true
    → (lenders : List String) × Passed w (unpack input) lenders
unfolding run
run-submitted w input h = stages-submitted w (unpack input) h

-- If the data principal is named and consent is denied, the run is rejected at the consent gate, and
-- the consent check is the only activity that was called.
pub run-consent_denied :
    (w : World) (input : WorkflowInput) (r : ConsentResult)
    → (unpack input).data_principal_id ≢ ""
    → w.consent (consent_input (unpack input)) ≡ some r
    → r.allowed ≡ false
    → run w input ≡ (
      done (rejected "dpdp_consent" (or_default r.reason "consent_not_granted")),
      deliver
          (w.during (check_dpdp_consent (consent_input (unpack input))))
          (record start { log = called (check_dpdp_consent (consent_input (unpack input))) ∷ [] }),
    )
unfolding run stages gates consent_gate execute_activity ◌>>=◌
run-consent_denied w input r named reply denied =
    ground (arith, eq_iff (unpack input).data_principal_id "")
