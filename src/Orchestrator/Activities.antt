-- ===== src/Orchestrator/Activities.antt =====
-- services/la_orchestrator/activities.py: the activities of the loan workflow. The rules engine and what the
-- factories of the clients give are arguments; logging is left out. An activity that raises is an `err`, which Temporal
-- retries.
pub mod Origination
use project_k_platform.Prelude.{
  ℕ, suc, String, ◌≡◌, Bool, true, false, ◌&&◌, not, Option, none, some, List, [], ◌∷◌, map, length,
  if◌then◌else◌, or_default,
}
use Prim.Native.String.{◌++◌, slice}
use project_k_platform.Prelude.Dict.{Dict}
use project_k_platform.Prelude.Eq.{◌==◌, string_eq}
use project_k_platform.Prelude.Result.{Error, Result, ok, err, ◌>>=◌}
use project_k_platform.Rules.{Context, ZenResult, EvaluationResult, Engine, evaluate, is_loaded}
use project_k_platform.Integrations.{
  AaClient, ConsentClient, OcenClient, Method, ConsentResponse, ConsentStatus, FinancialData,
  SubmissionResponse, OfferStatus, ConsentCheckResult, Offer,
}
use project_k_platform.Orchestrator.Types.{
  EvaluateDecisionInput, DecisionResult, CheckDpdpConsentInput, ConsentResult, FetchAaDataInput,
  AaResult, SubmitToLenderInput, SubmitResult,
}

abbrev pub receipt_id_of : EvaluateDecisionInput → String
receipt_id_of input = "receipt-" ++ input.loan_application_id ++ "-" ++ input.gate

-- The result when there is no context or no such ruleset.
abbrev pub unevaluated : EvaluateDecisionInput → DecisionResult
unevaluated input = record {
  outcome = "pass";
  reason = some "no_ruleset_or_context";
  ruleset_hash = "none";
  input_hash = "none";
  receipt_id = receipt_id_of input;
  matched_lender_ids = some [];
}

-- The decision event that goes to the stream.
pub record DecisionEvent : Type 0 where
  pub loan_application_id : String
  pub gate : String
  pub outcome : String
  pub ruleset_hash : String
  pub input_hash : String
  pub receipt_id : String

module _ (zen : String → Context → Option ZenResult) (sha256 : String → String)
    (dumps : Context → String) (engine : Engine) where
  abbrev pub input_hash_of : Context → String
  input_hash_of context = slice (sha256 (dumps context)) 0 16

  abbrev pub evaluated : EvaluateDecisionInput → Context → EvaluationResult → DecisionResult
  evaluated input context r = record {
    outcome = or_default r.output.outcome "pass";
    reason = some (or_default r.output.reason "evaluated");
    ruleset_hash = r.ruleset_hash;
    input_hash = input_hash_of context;
    receipt_id = receipt_id_of input;
    matched_lender_ids = some (or_default r.output.matched_lender_ids []);
  }

  -- The event built from the result; `published` says whether building and publishing it succeeds,
  -- and a failure is only logged.
  abbrev pub emitted : Bool → EvaluateDecisionInput → DecisionResult → List DecisionEvent
  emitted published input r =
      if published
      then (record {
        loan_application_id = input.loan_application_id;
        gate = input.gate;
        outcome = r.outcome;
        ruleset_hash = r.ruleset_hash;
        input_hash = r.input_hash;
        receipt_id = r.receipt_id;
      }
          ∷ [])
      else []

  abbrev with_context :
      Bool → EvaluateDecisionInput → Context → Result (DecisionResult × List DecisionEvent)
  with_context published input context = do
    r ← evaluate zen sha256 engine input.ruleset_name context
    ok (evaluated input context r, emitted published input (evaluated input context r))

  -- None and the empty dict are falsy.
  unfoldable pub evaluate_decision :
      Bool → EvaluateDecisionInput → Result (DecisionResult × List DecisionEvent)
  evaluate_decision published input = elim (or_default input.context []) [
    | [] ↦ ok (unevaluated input, [])
    | f ∷ fs ↦
        if is_loaded input.ruleset_name engine
        then with_context published input (f ∷ fs)
        else ok (unevaluated input, [])
  ]

abbrev default_purposes : List String
default_purposes = "loan_origination" ∷ "kind1_attestation" ∷ []

abbrev or_purposes : List String → List String
or_purposes [] = default_purposes
or_purposes (p ∷ ps) = p ∷ ps

-- State and exceptions over the client of one activity.
abbrev and_then : {S A B : Type 0} → (A → Method S B) → Result A × S → Result B × S
and_then k (ok a, s) = k a s
and_then k (err e, s) = (err e, s)

-- An activity makes its clients anew: what a factory gives is a client with the state of a new one,
-- or an exception, and what the client keeps in its dicts goes with it.
abbrev pub Made : (Type 0 → Type 0) → Type 0 → Type 0
Made Client S = Result (Client S × S)

abbrev result_of : {S A : Type 0} → Result A × S → Result A
result_of (r, s) = r

module _ {C : Type 0} (get_consent_client : Made ConsentClient C) where
  abbrev consent_result : Result ConsentCheckResult → Result ConsentResult
  consent_result (ok r) = ok (record { allowed = r.allowed; reason = some r.reason })
  consent_result (err e) = err e

  unfoldable pub check_dpdp_consent : CheckDpdpConsentInput → Result ConsentResult
  check_dpdp_consent input = do
    made ← get_consent_client
    consent_result (
        result_of
          ((made.0).check_consent input.data_principal_id (or_purposes input.purposes) made.1))

abbrev pub no_data : AaResult
no_data = record {
  data_received = false;
  months_available = 0;
  fips_responded = [];
  gst_returns_count = none;
  aa_consent_id = none;
}

abbrev pub received : String → FinancialData → AaResult
received consent_id data_ = record {
  data_received = true;
  months_available = data_.months_available;
  fips_responded = map (λ n. or_default n "unknown") data_.bank_names;
  gst_returns_count = some (length data_.gst_returns);
  aa_consent_id = some consent_id;
}

module _ {C : Type 0} (get_consent_client : Made ConsentClient C) where
  -- The consent is linked in the ledger of a new client if a data principal is named.
  abbrev link : FetchAaDataInput → String → Result {0} Unit
  link input consent_id = if input.data_principal_id == "" then ok tt else (do
    made ← get_consent_client
    result_of (
        (made.0).link_aa_consent input.data_principal_id consent_id input.loan_application_id
          made.1))

  module _ {S : Type 0} (aa : AaClient S) where
    open aa use {create_consent, check_consent_status, fetch_financial_data}

    -- The data is fetched if the consent's status is "approved".
    abbrev fetch_if_approved : String → ConsentStatus → Method S AaResult
    fetch_if_approved consent_id status s =
        if status.status == "approved"
        then and_then (λ d t. (ok (received consent_id d), t)) (fetch_financial_data consent_id s)
        else (ok no_data, s)

    abbrev after_link : String → Result {0} Unit → Method S AaResult
    after_link consent_id (err e) s = (err e, s)
    after_link consent_id (ok _) s =
        and_then (fetch_if_approved consent_id) (check_consent_status consent_id s)

    abbrev after_consent : FetchAaDataInput → ConsentResponse → Method S AaResult
    after_consent input c = after_link c.consent_id (link input c.consent_id)

    abbrev fetch_with : FetchAaDataInput → Method S AaResult
    fetch_with input s =
        and_then (after_consent input) (create_consent input.vendor_gstin "loan_origination" 12 s)

  unfoldable pub fetch_aa_data : {S : Type 0} → Made AaClient S → FetchAaDataInput → Result AaResult
  fetch_aa_data get_aa_client input =
      if input.vendor_gstin == ""
      then ok no_data
      else (do made ← get_aa_client; result_of (fetch_with made.0 input made.1))

abbrev first_offer : SubmissionResponse → OfferStatus → SubmitResult
first_offer sub status = elim status.offers [
  | [] ↦ record { offer_received = some false; offer = none; submission_id = sub.submission_id }
  | o ∷ os ↦ record {
    offer_received = some true;
    offer = some o;
    submission_id = sub.submission_id;
  }
]

module _ {S : Type 0} where
  abbrev submit_and_check : OcenClient S → SubmitToLenderInput → Method S SubmitResult
  submit_and_check ocen input s =
      and_then
        (λ sub t.
          and_then (λ status u. (ok (first_offer sub status), u))
            (ocen.check_offer_status sub.submission_id t))
        (ocen.submit_application input.loan_application_id input.lender_ids s)

  unfoldable pub submit_to_lender : Made OcenClient S → SubmitToLenderInput → Result SubmitResult
  submit_to_lender get_ocen_client input = do
    made ← get_ocen_client
    result_of (submit_and_check made.0 input made.1)
