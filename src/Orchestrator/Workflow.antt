-- ===== src/Orchestrator/Workflow.antt =====
-- LoanOriginationWorkflow of services/la_orchestrator/workflows.py: its state, its signals, and the
-- run as a chain of stages, each of which goes on, ends the run with a result, or raises. Temporal
-- is the `World`: what each activity gives in the end (`none` when its retries are used up), the
-- signals that arrive while it is pending, and those of each wait.
pub mod Gates
pub mod Hold
pub mod Lender
use project_k_platform.Prelude.{
  String, Bool, true, false, not, ◌&&◌, Option, none, some, List, [], ◌∷◌, if◌then◌else◌,
  or_default, is_some,
}
use project_k_platform.Prelude.Eq.{◌==◌, string_eq}
use project_k_platform.Integrations.{Offer}
use project_k_platform.Orchestrator.Types.{
  EvaluateDecisionInput, DecisionResult, CheckDpdpConsentInput, ConsentResult, FetchAaDataInput,
  AaResult, SubmitToLenderInput, SubmitResult, SubmitOcenLoanRequestInput, OcenSubmitResult,
  LenderResponse, LoanOriginationInput, WorkflowInput, legacy, structured,
}

pub data Signal : Type 0 where
  lender_response_received : LenderResponse → Signal
  ops_hold_requested : String → Signal
  ops_hold_released : Signal

pub record Fields : Type 0 where
  pub lender_response : Option LenderResponse
  pub ops_hold : Bool
  pub ops_hold_reason : String

abbrev pub init : Fields
init = record { lender_response = none; ops_hold = false; ops_hold_reason = "" }

abbrev pub handle : Fields → Signal → Fields
handle f (lender_response_received r) = record f { lender_response = some r }
handle f (ops_hold_requested why) = record f { ops_hold = true; ops_hold_reason = why }
handle f ops_hold_released = record f { ops_hold = false; ops_hold_reason = "" }

-- The activities that the run executes, with their inputs.
pub data Call : Type 0 where
  check_dpdp_consent : CheckDpdpConsentInput → Call
  evaluate_decision : EvaluateDecisionInput → Call
  fetch_aa_data : FetchAaDataInput → Call
  submit_to_lender : SubmitToLenderInput → Call
  submit_ocen_loan_request : SubmitOcenLoanRequestInput → Call

-- What happened in a run, newest first.
pub data Event : Type 0 where
  called : Call → Event
  signalled : Signal → Event

pub record World : Type 0 where
  pub consent : CheckDpdpConsentInput → Option ConsentResult
  pub decision : EvaluateDecisionInput → Option DecisionResult
  pub aa : FetchAaDataInput → Option AaResult
  pub submit : SubmitToLenderInput → Option SubmitResult
  pub ocen : SubmitOcenLoanRequestInput → Option OcenSubmitResult
  pub during : Call → List Signal
  -- The signals of each activation of the workflow during a wait.
  pub hold_wait : List (List Signal)
  pub lender_wait : List (List Signal)

pub record State : Type 0 where
  pub fields : Fields
  pub log : List Event

pub data RunResult : Type 0 where
  rejected : String → String → RunResult
  offer_received : Option Offer → List String → RunResult

pub data Step (A : Type 0) : Type 0 where
  go : A → Step A
  done : RunResult → Step A
  raised : Step A

abbrev pub Stage : Type 0 → Type 0
Stage A = State → Step A × State

abbrev pub continue : {A B : Type 0} → (A → Stage B) → Step A × State → Step B × State
continue k (go a, s) = k a s
continue k (done r, s) = (done r, s)
continue k (raised, s) = (raised, s)

infixl 5 ◌>>=◌ ◌>>◌
unfoldable pub ◌>>=◌ : {A B : Type 0} → Stage A → (A → Stage B) → Stage B
◌>>=◌ m k s = continue k (m s)

abbrev pub ◌>>◌ : {A B : Type 0} → Stage A → Stage B → Stage B
m >> k = m >>= λ _. k

abbrev pub pure : {A : Type 0} → A → Stage A
pure a s = (go a, s)

abbrev pub finish : {A : Type 0} → RunResult → Stage A
finish r s = (done r, s)

-- Signal handlers run between the workflow's own steps, in the order of arrival.
unfoldable pub deliver : List Signal → State → State
deliver [] s = s
deliver (g ∷ gs) s = deliver gs (record { fields = handle s.fields g; log = signalled g ∷ s.log })

abbrev pub or_raised : {A : Type 0} → Option A → Step A
or_raised none = raised
or_raised (some a) = go a

-- `await workflow.execute_activity(…)`
unfoldable pub execute_activity : {A : Type 0} → World → Call → Option A → Stage A
execute_activity w c reply s =
    (or_raised reply, deliver (w.during c) (record s { log = called c ∷ s.log }))

-- `workflow.wait_condition`: in each activation the handlers of all its signals run, and then the
-- condition is checked; if there are no more activations the timeout strikes, and the flag is false.
unfoldable pub wait_condition : (Fields → Bool) → List (List Signal) → State → Bool × State
unfolding deliver
wait_condition cond [] s = (cond s.fields, s)
wait_condition cond (gs ∷ activations) s =
    let rest = wait_condition cond activations (deliver gs s) in
    if cond s.fields then (true, s) else rest

-- The run's parameters after the legacy form is unpacked.
abbrev pub unpack : WorkflowInput → LoanOriginationInput
unpack (legacy id) = record { loan_application_id = id; data_principal_id = ""; vendor_gstin = "" }
unpack (structured i) = i

abbrev pub purposes : List String
purposes = "loan_origination" ∷ "kind1_attestation" ∷ []

abbrev pub consent_input : LoanOriginationInput → CheckDpdpConsentInput
consent_input i = record {
  loan_application_id = i.loan_application_id;
  data_principal_id = i.data_principal_id;
  purposes = purposes;
}

-- Every gate is evaluated with no context: the workflow leaves the field at its default, None.
abbrev pub decision_input : LoanOriginationInput → String → String → EvaluateDecisionInput
decision_input i gate rules = record {
  loan_application_id = i.loan_application_id;
  gate = gate;
  ruleset_name = rules;
  context = none;
}

abbrev pub d0_input : LoanOriginationInput → EvaluateDecisionInput
d0_input i = decision_input i "d0_kind1_gate" "d0-kind1-gate"

abbrev pub d1_input : LoanOriginationInput → EvaluateDecisionInput
d1_input i = decision_input i "d1_data_sufficiency" "d1-data-sufficiency"

abbrev pub d2_input : LoanOriginationInput → EvaluateDecisionInput
d2_input i = decision_input i "d2_derived_attributes" "d2-derived-flags"

abbrev pub d3_input : LoanOriginationInput → EvaluateDecisionInput
d3_input i = decision_input i "d3_lender_prescreen" "d3-lender-prescreen"

abbrev pub aa_input : LoanOriginationInput → FetchAaDataInput
aa_input i = record {
  loan_application_id = i.loan_application_id;
  vendor_gstin = i.vendor_gstin;
  data_principal_id = i.data_principal_id;
}

abbrev pub submit_input : LoanOriginationInput → List String → SubmitToLenderInput
submit_input i lenders = record {
  loan_application_id = i.loan_application_id;
  lender_ids = lenders;
}

abbrev pub ocen_input : LoanOriginationInput → SubmitOcenLoanRequestInput
ocen_input i = record {
  loan_application_id = i.loan_application_id;
  borrower_gstin = "";
  borrower_name = "";
}

module _ (w : World) (i : LoanOriginationInput) where
  abbrev pub judge_consent : ConsentResult → Stage Unit
  judge_consent r =
      if r.allowed
      then pure tt
      else finish (rejected "dpdp_consent" (or_default r.reason "consent_not_granted"))

  unfoldable pub consent_gate : Stage Unit
  consent_gate =
      if i.data_principal_id == ""
      then pure tt
      else (execute_activity w (check_dpdp_consent (consent_input i)) (w.consent (consent_input i))
          >>= judge_consent)

  abbrev pub decide : EvaluateDecisionInput → Stage DecisionResult
  decide e = execute_activity w (evaluate_decision e) (w.decision e)

  abbrev pub judge_outcome : String → String → DecisionResult → Stage Unit
  judge_outcome gate default r =
      if r.outcome == "fail" then finish (rejected gate (or_default r.reason default)) else pure tt

  unfoldable pub d0_gate : Stage Unit
  d0_gate = decide (d0_input i) >>= judge_outcome "d0_kind1_gate" "kind1_conditions_not_met"

  abbrev pub judge_aa : AaResult → Stage Unit
  judge_aa r =
      if r.data_received
      then pure tt
      else finish (rejected "aa_fetch" "aa_consent_denied_or_timeout")

  unfoldable pub aa_gate : Stage Unit
  aa_gate = execute_activity w (fetch_aa_data (aa_input i)) (w.aa (aa_input i)) >>= judge_aa

  unfoldable pub d1_gate : Stage Unit
  d1_gate = decide (d1_input i) >>= judge_outcome "d1_data_sufficiency" "insufficient_data"

  -- D2 does not gate: its result is dropped.
  unfoldable pub d2_stage : Stage DecisionResult
  d2_stage = decide (d2_input i)

  abbrev pub judge_lenders : List String → Stage (List String)
  judge_lenders [] = finish (rejected "d3_lender_prescreen" "no_eligible_lenders")
  judge_lenders (l ∷ ls) = pure (l ∷ ls)

  unfoldable pub d3_gate : Stage (List String)
  d3_gate = decide (d3_input i) >>= λ r. judge_lenders (or_default r.matched_lender_ids [])

  abbrev pub hold_over : Bool × State → Step Unit × State
  hold_over (true, s) = (go tt, s)
  hold_over (false, s) = (done (rejected "ops_hold" "ops_hold_expired"), s)

  unfoldable pub hold_gate : Stage Unit
  unfolding wait_condition
  hold_gate s =
      if s.fields.ops_hold
      then hold_over (wait_condition (λ f. not f.ops_hold) w.hold_wait s)
      else (go tt, s)

  unfoldable pub submit : List String → Stage SubmitResult
  submit lenders =
      execute_activity w (submit_to_lender (submit_input i lenders))
        (w.submit (submit_input i lenders))

  unfoldable pub submit_network : Stage OcenSubmitResult
  submit_network =
      execute_activity w (submit_ocen_loan_request (ocen_input i)) (w.ocen (ocen_input i))

  -- The dict that `run` returns for the response that ended the wait. `.get("offer")` is falsy for
  -- None and for an empty dict.
  abbrev pub settle : List String → Option LenderResponse → RunResult
  settle lenders none = rejected "d4_lender_underwriting" "lender_declined"
  settle lenders (some r) = elim r.offer [
    | none ↦ rejected "d4_lender_underwriting" (or_default r.reason "lender_declined")
    | some o ↦ elim o [
      | [] ↦ rejected "d4_lender_underwriting" (or_default r.reason "lender_declined")
      | f ∷ fs ↦ offer_received r.offer lenders
    ]
  ]

  abbrev pub response_over : List String → Bool × State → Step Unit × State
  response_over lenders (true, s) = (done (settle lenders s.fields.lender_response), s)
  response_over lenders (false, s) =
      (done (rejected "d4_lender_underwriting" "lender_response_timeout"), s)

  unfoldable pub await_lender : List String → SubmitResult → Stage Unit
  unfolding wait_condition
  await_lender lenders r s =
      if or_default r.offer_received false
      then (done (offer_received r.offer lenders), s)
      else response_over lenders (wait_condition (λ f. is_some f.lender_response) w.lender_wait s)

  -- The stages after a list of lenders is matched.
  unfoldable pub submission : List String → Stage Unit
  submission lenders = do hold_gate; r ← submit lenders; submit_network; await_lender lenders r

  unfoldable pub gates : Stage (List String)
  gates = do consent_gate; d0_gate; aa_gate; d1_gate; d2_stage; d3_gate

  unfoldable pub stages : Stage Unit
  stages = gates >>= submission

abbrev pub start : State
start = record { fields = init; log = [] }

unfoldable pub run : World → WorkflowInput → Step Unit × State
run w input = stages w (unpack input) start
