-- ===== src/Tests/Workflow.antt =====
-- Runs of the loan workflow: one held for a while and then offered a loan, and one whose consent is
-- denied.
use project_k_platform.Prelude.{
  String, ◌≡◌, ◌≢◌, refl, true, false, Option, none, some, List, [], ◌∷◌, arith, eq_iff,
}
use project_k_platform.Integrations.{Offer, text}
use project_k_platform.Rules.{Context, ZenResult, Engine}
use project_k_platform.Orchestrator.Types.{
  DecisionResult, ConsentResult, LoanOriginationInput, WorkflowInput, structured, LenderResponse,
  SubmitResult,
}
use project_k_platform.Orchestrator.Activities.{evaluate_decision}
use project_k_platform.Orchestrator.Activities.Origination.{
  run-evaluated_submits_nothing, decision_of,
}
use project_k_platform.Orchestrator.Workflow.{
  World, done, offer_received, Signal, lender_response_received, ops_hold_requested,
  ops_hold_released, Call, fetch_aa_data, start, run, unpack, await_lender, deliver, stages, ◌>>=◌,
  gates, consent_gate, execute_activity, d0_gate, aa_gate, d1_gate, d2_stage, d3_gate, submission,
  hold_gate, submit, submit_network,
}
use project_k_platform.Orchestrator.Workflow.Gates.{submitted, Passed, run-submitted}
use project_k_platform.Orchestrator.Workflow.Hold.{Released, run-Released}
use project_k_platform.Orchestrator.Workflow.Lender.{await_lender-verdict}

abbrev application : LoanOriginationInput
application = record {
  loan_application_id = "app-1";
  data_principal_id = "dp-1";
  vendor_gstin = "29AAAAA0000A1Z5";
}

abbrev input_one : WorkflowInput
input_one = structured application

abbrev offer_one : Offer
offer_one = ("lender_id", text "L1") ∷ []

abbrev response_one : LenderResponse
response_one = record { offer = some offer_one; reason = none }

abbrev decision_one : DecisionResult
decision_one = record {
  outcome = "pass";
  reason = none;
  ruleset_hash = "h";
  input_hash = "i";
  receipt_id = "r";
  matched_lender_ids = some ("L1" ∷ []);
}

abbrev signals_during : Call → List Signal
signals_during (fetch_aa_data x) = ops_hold_requested "kyc" ∷ []
signals_during c = []

abbrev no_offer : SubmitResult
no_offer = record { offer_received = some false; offer = none; submission_id = "s-1" }

abbrev world_one : World
world_one = record {
  consent = λ _. some (record { allowed = true; reason = none });
  decision = λ _. some decision_one;
  aa = λ _. some (record {
    data_received = true;
    months_available = 6;
    fips_responded = [];
    gst_returns_count = none;
    aa_consent_id = none;
  });
  submit = λ _. some no_offer;
  ocen = λ _. some (record { submitted = true; ack_count = 1; trace_ids = [] });
  during = signals_during;
  hold_wait = (ops_hold_released ∷ []) ∷ [];
  lender_wait = (lender_response_received response_one ∷ []) ∷ [];
}

abbrev denial : ConsentResult
denial = record { allowed = false; reason = some "withdrawn" }

abbrev world_denied : World
world_denied = record world_one { consent = λ _. some denial }

-- The held run submits, after the release, and ends with the offer.
run_one :
    ((run world_one input_one).0 ≡ done (offer_received (some offer_one) ("L1" ∷ [])))
    × (submitted (run world_one input_one).1 ≡ true)
unfolding run stages ◌>>=◌ gates consent_gate execute_activity d0_gate aa_gate d1_gate d2_stage
    d3_gate submission hold_gate deliver submit submit_network await_lender
run_one = (refl, refl)

run-submitted_example : (lenders : List String) × Passed world_one (unpack input_one) lenders
run-submitted_example = run-submitted world_one input_one run_one.1

run-Released_example : Released (run world_one input_one).1.log
run-Released_example = run-Released world_one input_one

named : (unpack input_one).data_principal_id ≢ ""
named e = ground (arith, eq_iff "dp-1" "")

await_lender-verdict_example :
    (await_lender world_one application ("L1" ∷ []) no_offer start).0
    ≡ done (offer_received (some offer_one) ("L1" ∷ []))
await_lender-verdict_example =
    await_lender-verdict world_one application ("L1" ∷ []) no_offer start refl

abbrev empty_engine : Engine
empty_engine = record { engines = []; hashes = []; engine_version = "stub-0.0.0" }

abbrev silent : String → Context → Option ZenResult
silent content context = none

abbrev printed : Context → String
printed context = ""

abbrev evaluated_world : World
evaluated_world = record world_one {
  decision = λ e. decision_of (evaluate_decision silent (λ t. t) printed empty_engine true e);
}

run-evaluated_submits_nothing_example : submitted (run evaluated_world input_one).1 ≡ false
run-evaluated_submits_nothing_example =
    run-evaluated_submits_nothing silent (λ t. t) printed empty_engine true evaluated_world
      input_one (λ e. refl)
