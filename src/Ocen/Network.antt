-- ===== src/Ocen/Network.antt =====
-- OcenNetworkClient of libs/ocen_client/network_client.py, with OcenRegistryService of registry.py and
-- OcenHeartbeatService of heartbeat.py. The three share one token service, whose state is `S` here and
-- whose `get_bearer_token` is an operation on it; HTTP requests go out in the order of the log.
use Prim.Native.String.{◌++◌}
use project_k_platform.Prelude.{
  ℕ, String, Option, none, some, List, [], ◌∷◌, ◌++◌ as append, if◌then◌else◌,
}
use project_k_platform.Prelude.Eq.{◌==◌, string_eq}
use project_k_platform.Prelude.Result.{Error, Result, ok, err}
use project_k_platform.Integrations.{Method}
use project_k_platform.Ocen.{
  MetaData, ProductData, LoanApplication, CreateLoanApplicationRequest,
  CreateLoanApplicationResponse, OcenAckResponse, ParticipantDetail, ProductNetworkDetail,
  OcenConfig,
}

-- The event types of the network, of which the client sends two.
pub data HeartbeatEventType : Type 0 where
  create_loan_application_request create_loan_application_request_ack : HeartbeatEventType
  create_loan_applications_response create_loan_applications_response_ack : HeartbeatEventType
  consent_handle_request consent_handle_response generate_offers_request : HeartbeatEventType
  generate_offers_request_ack generate_offers_response : HeartbeatEventType
  generate_offers_response_ack set_offers_request set_offers_request_ack : HeartbeatEventType
  set_offers_response set_offers_response_ack loan_agreement_request : HeartbeatEventType
  loan_agreement_request_ack loan_agreement_response : HeartbeatEventType
  loan_agreement_response_ack grant_loan_request grant_loan_request_ack : HeartbeatEventType
  grant_loan_response grant_loan_response_ack trigger_disbursement_request : HeartbeatEventType
  trigger_disbursement_request_ack trigger_disbursement_response : HeartbeatEventType
  trigger_disbursement_response_ack trigger_repayment_request : HeartbeatEventType
  trigger_repayment_response set_repayment_plan_request : HeartbeatEventType
  set_repayment_plan_request_ack : HeartbeatEventType

pub record HeartbeatEvent : Type 0 where
  pub event_type : HeartbeatEventType
  pub product_id : String
  pub product_network_id : String
  pub loan_application_id : String
  pub response_code : ℕ
  pub response_message : String
  pub role_id : String

-- A request that goes out, with its bearer token.
pub data Request : Type 0 where
  get_registry : String → String → Request
  post_loan_request : String → String → String → String → Request
  post_heartbeat : HeartbeatEvent → String → Request

-- What the client takes from outside: the body of a request as JSON, the signature of a body, the
-- registry's answer to a URL, a lender's answer to a posted URL, and the text of an exception.
pub record Network : Type 0 where
  pub model_dump_json : CreateLoanApplicationRequest → String
  pub sign : String → String
  pub participants : String → Result ProductNetworkDetail
  pub answer : String → Result OcenAckResponse
  pub str_error : Error → String

abbrev pub create_loan_request_path : String
create_loan_request_path = "/v4.0.0alpha/loanApplications/createLoanRequest"

abbrev pub lender_url : ParticipantDetail → String
lender_url lender = lender.base_url ++ create_loan_request_path

abbrev pub acks_of : Result OcenAckResponse → List OcenAckResponse
acks_of (ok ack) = ack ∷ []
acks_of (err e) = []

abbrev pub participants_url : String → String → String
participants_url base_url id = base_url ++ "/product-networks/" ++ id ++ "/participants"

module _ {S : Type 0} (get_bearer_token : Method S String) where
  -- `send_event`: with no token nothing is sent, and no exception leaves it.
  abbrev pub sent_with : HeartbeatEvent → Result String → List Request
  sent_with event (ok token) = post_heartbeat event token ∷ []
  sent_with event (err e) = []

  unfoldable pub send_event : HeartbeatEvent → S → S × List Request
  send_event event s = let (token, s') = get_bearer_token s in (s', sent_with event token)

  -- `_emit_heartbeat`, on the product data and the loan applications of a request or a response.
  unfoldable pub emit_heartbeat :
      HeartbeatEventType
      → ProductData
      → List LoanApplication
      → ℕ
      → String
      → String
      → S
      → S × List Request
  unfolding send_event
  emit_heartbeat event_type product_data [] code text role_id s = (s, [])
  emit_heartbeat event_type product_data (app ∷ apps) code text role_id s =
      let (s', first) =
        send_event
          (record {
            event_type = event_type;
            product_id = product_data.product_id;
            product_network_id = product_data.product_network_id;
            loan_application_id = app.loan_application_id;
            response_code = code;
            response_message = text;
            role_id = role_id;
          })
          s in
      let (s'', others) = emit_heartbeat event_type product_data apps code text role_id s' in
      (s'', append first others)

  -- A request to the registry, with a token of its own: `get_participant_detail` and
  -- `get_product_network_participants` differ in the path alone.
  abbrev pub looked_up :
      {A : Type 0} → (String → Result A) → String → Result String → Result A × List Request
  looked_up answer url (ok token) = (answer url, get_registry url token ∷ [])
  looked_up answer url (err e) = (err e, [])

  unfoldable pub get_product_network_participants :
      (String → Result ProductNetworkDetail)
      → String
      → String
      → S
      → (Result ProductNetworkDetail × List Request) × S
  get_product_network_participants answer base_url id s =
      let (token, s') = get_bearer_token s in
      (looked_up answer (participants_url base_url id) token, s')

  unfoldable pub get_participant_detail :
      (String → Result ParticipantDetail)
      → String
      → String
      → S
      → (Result ParticipantDetail × List Request) × S
  get_participant_detail answer base_url id s =
      let (token, s') = get_bearer_token s in
      (looked_up answer (base_url ++ "/participant-roles/" ++ id) token, s')

  module _ (net : Network) (request : CreateLoanApplicationRequest) where
    -- The heartbeats for one lender's answer.
    unfoldable pub report : String → Result OcenAckResponse → S → S × List Request
    unfolding emit_heartbeat
    report id (ok ack) =
        emit_heartbeat create_loan_application_request request.product_data
          request.loan_applications 200 "Success" id
    report id (err e) =
        emit_heartbeat create_loan_application_request request.product_data
          request.loan_applications 500 (net.str_error e) id

    -- The loop over the lenders.
    unfoldable pub submit_to :
        String → String → List ParticipantDetail → S → List OcenAckResponse × S × List Request
    unfolding report
    submit_to token signature [] s = ([], s, [])
    submit_to token signature (lender ∷ lenders) s =
        let answer = net.answer (lender_url lender) in
        let (s', beats) = report lender.id answer s in
        let (acks, s'', others) = submit_to token signature lenders s' in
        (
          append (acks_of answer) acks,
          s'',
          post_loan_request (lender_url lender) (net.model_dump_json request) token signature
              ∷ append beats others,
        )

    unfoldable pub submit_through :
        String
        → (Result ProductNetworkDetail × List Request) × S
        → Result (List OcenAckResponse) × S × List Request
    unfolding submit_to
    submit_through token ((err e, looked), s) = (err e, s, looked)
    submit_through token ((ok network, looked), s) =
        let (acks, s', sent) =
          submit_to token (net.sign (net.model_dump_json request)) network.lenders s in
        (ok acks, s', append looked sent)

    unfoldable pub submit_with :
        String → Result String → S → Result (List OcenAckResponse) × S × List Request
    unfolding submit_through get_product_network_participants
    submit_with base_url (err e) s = (err e, s, [])
    submit_with base_url (ok token) s = submit_through token (
        get_product_network_participants net.participants base_url
          request.product_data.product_network_id s)

    -- `base_url` is the registry's.
    unfoldable pub submit_loan_application :
        String → S → Result (List OcenAckResponse) × S × List Request
    unfolding submit_with
    submit_loan_application base_url s =
        let (token, s') = get_bearer_token s in submit_with base_url token s'

  -- `handle_loan_response`; `now` is the clock's text.
  unfoldable pub handle_loan_response :
      String → CreateLoanApplicationResponse → S → OcenAckResponse × S × List Request
  unfolding emit_heartbeat
  handle_loan_response now r s =
      let (s', sent) =
        emit_heartbeat create_loan_applications_response_ack r.product_data r.loan_applications 200
          "Success" r.metadata.originator_participant_id s in
      (record { error = none; trace_id = r.metadata.trace_id; timestamp = now }, s', sent)

-- `build_metadata`: a trace identifier that is None or empty is replaced by a new one.
unfoldable pub build_metadata : OcenConfig → Option String → String → String → String → MetaData
build_metadata config trace_id now new_trace new_request = record {
  version = "4.0.0alpha";
  originator_org_id = config.org_id;
  originator_participant_id = config.participant_id;
  timestamp = now;
  trace_id = or_new trace_id;
  request_id = new_request;
}
  where
    or_new : Option String → String
    or_new none = new_trace
    or_new (some t) = if t == "" then new_trace else t

unfoldable pub build_product_data : OcenConfig → ProductData
build_product_data config = record {
  product_id = config.product_id;
  product_network_id = config.product_network_id;
}
