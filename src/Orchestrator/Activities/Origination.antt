-- ===== src/Orchestrator/Activities/Origination.antt =====
-- The activity that evaluates a decision together with the loan workflow.
use project_k_platform.Prelude.{
  String, ◌≡◌, Bool, false, Option, none, some, List, arith, Bool-cases, inl, inr,
}
use project_k_platform.Prelude.Eq.{string_eq}
use project_k_platform.Prelude.Result.{Result, ok, err}
use project_k_platform.Rules.{Context, ZenResult, Engine}
use project_k_platform.Orchestrator.Types.{EvaluateDecisionInput, DecisionResult, WorkflowInput}
use project_k_platform.Orchestrator.Activities.{evaluate_decision}
use project_k_platform.Orchestrator.Workflow.{World, run, unpack, d3_input}
use project_k_platform.Orchestrator.Workflow.Gates.{submitted, run-submitted, Passed}

abbrev pub decision_of : {A : Type 0} → Result (DecisionResult × A) → Option DecisionResult
decision_of (ok (r, events)) = some r
decision_of (err e) = none

module _ (zen : String → Context → Option ZenResult) (sha256 : String → String)
    (dumps : Context → String) (engine : Engine) (published : Bool) where
  -- A world whose decision gates are answered by the `evaluate_decision` activity.
  abbrev pub IsEvaluated : World → Type 0
  IsEvaluated w =
      (e : EvaluateDecisionInput)
      → w.decision e ≡ decision_of (evaluate_decision zen sha256 dumps engine published e)

  unmatched :
      (w : World) (input : WorkflowInput) {ls : List String}
      → IsEvaluated w
      → Passed w (unpack input) ls
      → ⊥
  unfolding evaluate_decision
  unmatched w input h p =
      let (r, e, m) = p.d3 in p.matched (ground (arith, h (d3_input (unpack input))))

  -- Where the gates are evaluated by the platform's own activity, no run of the workflow ever calls
  -- a submission activity, for any input, rules engine and answers of the other activities.
  pub run-evaluated_submits_nothing :
      (w : World) (input : WorkflowInput) → IsEvaluated w → submitted (run w input).1 ≡ false
  run-evaluated_submits_nothing w input h = elim (Bool-cases (submitted (run w input).1)) [
    | inr e ↦ e
    | inl e ↦ let (ls, p) = run-submitted w input e in absurd (unmatched w input h p)
  ]
