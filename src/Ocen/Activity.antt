-- ===== src/Ocen/Activity.antt =====
-- `submit_ocen_loan_request` of services/la_orchestrator/activities.py, which submits one loan application
-- through the client of libs/ocen_client. New identifiers and the clock's text are arguments.
use project_k_platform.Prelude.{
  String, ◌≡◌, refl, Bool, true, Option, none, some, List, [], ◌∷◌, map, length, if◌then◌else◌, ap,
  is_some, false,
}
use project_k_platform.Prelude.Eq.{◌==◌, string_eq}
use project_k_platform.Prelude.Result.{Result, ok, err, is_ok}
use project_k_platform.Integrations.{Method}
use project_k_platform.Orchestrator.Types.{
  SubmitOcenLoanRequestInput, OcenSubmitResult, LoanOriginationInput,
}
use project_k_platform.Orchestrator.Workflow.{ocen_input}
use project_k_platform.Ocen.{
  LoanApplication, Borrower, CreateLoanApplicationRequest, OcenAckResponse, ProductNetworkDetail,
  OcenConfig, borrower_of, loan_application_of,
}
use project_k_platform.Ocen.Network.{
  Request, Network, participants_url, submit_loan_application, build_metadata, build_product_data,
}
use project_k_platform.Ocen.Delivery.{
  loan_requests, acknowledged, posted_to, submit_loan_application-sent,
}

-- The identifiers of one run: the clock's text, a new trace and a new request.
pub record Run : Type 0 where
  pub now : String
  pub trace : String
  pub request : String

abbrev pub or_unknown : String → String
or_unknown gstin = if gstin == "" then "UNKNOWN" else gstin

unfoldable pub request_of :
    OcenConfig → Run → SubmitOcenLoanRequestInput → CreateLoanApplicationRequest
unfolding build_metadata build_product_data
request_of config run input = record {
  metadata = build_metadata config none run.now run.trace run.request;
  product_data = build_product_data config;
  loan_applications =
      loan_application_of input.loan_application_id
        (borrower_of (or_unknown input.borrower_gstin) "GSTIN" input.borrower_name)
      ∷ [];
}

module _ {S : Type 0} (get_bearer_token : Method S String) (net : Network)
    (config : OcenConfig) where
  abbrev pub submitted_result : Result (List OcenAckResponse) → Result OcenSubmitResult
  submitted_result (err e) = err e
  submitted_result (ok acks) =
      ok (record {
        submitted = true;
        ack_count = length acks;
        trace_ids = map (λ a. a.trace_id) acks;
      })

  unfoldable pub submit_ocen_loan_request :
      Run → SubmitOcenLoanRequestInput → S → Result OcenSubmitResult × S × List Request
  unfolding submit_loan_application request_of
  submit_ocen_loan_request run input s =
      let (acks, s', sent) =
        submit_loan_application get_bearer_token net (request_of config run input)
          config.registry_base_url s in
      (submitted_result acks, s', sent)

  -- The identifier of a loan application, that of its borrower, and whether there are terms.
  abbrev pub named : LoanApplication → String × Option String × Bool
  named a = (a.loan_application_id, borrower_id a.borrower, is_some a.terms)
    where
      borrower_id : Option Borrower → Option String
      borrower_id none = none
      borrower_id (some b) = some b.primary_id

  -- Run on the input that the loan workflow gives it, with a bearer token to be had and a registry
  -- that answers, the activity posts one request to each lender of the network. The request holds one
  -- loan application, whose borrower is "UNKNOWN" and which has no terms, whatever loan it is for. The
  -- activity reports that it submitted, with the number and the trace identifiers of the lenders that
  -- acknowledged, even if none did.
  pub submit_ocen_loan_request-ocen_input :
      (run : Run) (i : LoanOriginationInput) (s : S) (network : ProductNetworkDetail)
      → ((s : S) → is_ok (get_bearer_token s).0 ≡ true)
      → net.participants (participants_url config.registry_base_url config.product_network_id)
        ≡ ok network
      → let request = request_of config run (ocen_input i) in
        let acks = acknowledged get_bearer_token net request network.lenders in
        let (result, s', sent) = submit_ocen_loan_request run (ocen_input i) s in
        (result
          ≡ ok (record {
            submitted = true;
            ack_count = length acks;
            trace_ids = map (λ a. a.trace_id) acks;
          }))
        × (map named request.loan_applications
            ≡ (i.loan_application_id, some "UNKNOWN", false) ∷ [])
        × ((token : String) × (loan_requests sent
              ≡ posted_to get_bearer_token net request token
                  (net.sign (net.model_dump_json request))
                  network.lenders))
  unfolding submit_ocen_loan_request request_of build_product_data
  submit_ocen_loan_request-ocen_input run i s network available h =
      let done =
        submit_loan_application-sent get_bearer_token net (request_of config run (ocen_input i))
          config.registry_base_url s network available h in
      (ap submitted_result done.0, refl, (done.2.0, done.2.2))
