-- ===== src/Tests/Ocen.antt =====
-- The token service, the network client and its activity on a network of two lenders, and the
-- witnesses of their theorems.
use project_k_platform.Prelude.{
  ℕ, ◌+◌, String, ◌≡◌, ◌⊎◌, refl, true, false, none, some, [], ◌∷◌, map, length, if◌then◌else◌,
}
use project_k_platform.Prelude.Eq.{◌==◌, string_eq}
use project_k_platform.Prelude.Result.{Result, ok, err, other_error}
use project_k_platform.Integrations.{Method}
use project_k_platform.Orchestrator.Types.{LoanOriginationInput}
use project_k_platform.Orchestrator.Workflow.{ocen_input}
use project_k_platform.Ocen.{
  OcenConfig, CreateLoanApplicationRequest, ParticipantDetail, ProductNetworkDetail,
}
use project_k_platform.Ocen.Token.{
  TokenService, TokenData, Call, call, after, get_bearer_token, IsIssued, IsGood, Among, call-after,
}
use project_k_platform.Ocen.Network.{Network, submit_loan_application}
use project_k_platform.Ocen.Delivery.{
  loan_requests, heartbeats, acknowledged, posted_to, reported, submit_loan_application-sent,
}
use project_k_platform.Ocen.Activity.{
  Run, request_of, submit_ocen_loan_request, named, submit_ocen_loan_request-ocen_input,
}

abbrev service : TokenService
service = record {
  client_id = "id";
  client_secret = "secret";
  token_url = "https://auth";
  cached_token = none;
  token_expiry = 0;
}

abbrev answer : String → Result TokenData
answer token = ok (record { access_token = token; expires_in = some 60 })

-- Two calls within half a minute: the second gets the first one's token.
abbrev first : Call
first = record { now = 1000; later = 1001; answer = answer "t1" }

abbrev second : Call
second = record { now = 1030; later = 1031; answer = answer "t2" }

call-after_example :
    IsIssued "t1" second ⊎ ((origin : Call) × Among origin (first ∷ []) × IsGood 1030 "t1" origin)
unfolding call after get_bearer_token
call-after_example = call-after service (first ∷ []) second "t1" refl refl

-- The third is too late for that.
expired :
    (call
      (record { now = 1031; later = 1032; answer = answer "t3" })
      (after (first ∷ []) service)).0
    ≡ ok "t3"
unfolding call after get_bearer_token
expired = refl

abbrev lender : String → String → ParticipantDetail
lender id base_url = record {
  id = id;
  participant_role = "LENDER";
  kc_client_id = "";
  public_key = "";
  base_url = base_url;
  is_approved = true;
  participant = none;
}

abbrev network : ProductNetworkDetail
network = record {
  loan_agents = [];
  lenders = lender "L1" "https://l1" ∷ lender "L2" "https://l2" ∷ [];
}

-- The second lender does not answer.
abbrev net : Network
net = record {
  model_dump_json = λ r. "{}";
  sign = λ body. "h..s";
  participants = λ url. ok network;
  answer = λ url.
      if url == "https://l1/v4.0.0alpha/loanApplications/createLoanRequest"
      then ok (record { error = none; trace_id = "trace"; timestamp = "now" })
      else err (other_error "ConnectError");
  str_error = λ e. "failed";
}

-- A token source that counts its tokens.
abbrev tokens : Method ℕ String
tokens n = (ok "token", n + 1)

abbrev config : OcenConfig
config = record {
  client_id = "id";
  client_secret = "secret";
  token_url = "https://auth";
  registry_base_url = "https://registry";
  heartbeat_url = "https://analytics";
  jwt_issuer = "https://auth";
  participant_id = "p";
  org_id = "o";
  product_id = "product";
  product_network_id = "pn";
  keypair_path = "secrets/ocen_keypair.json";
}

abbrev run : Run
run = record { now = "now"; trace = "trace"; request = "request" }

abbrev loan : LoanOriginationInput
loan = record {
  loan_application_id = "1b4e28ba";
  data_principal_id = "29AAAAA0000A1Z5";
  vendor_gstin = "29AAAAA0000A1Z5";
}

abbrev request_one : CreateLoanApplicationRequest
unfolding request_of
request_one = request_of config run (ocen_input loan)

submit_loan_application-sent_example :
    let (result, s', sent) = submit_loan_application tokens net request_one "https://registry" 0 in
    (result ≡ ok (acknowledged tokens net request_one network.lenders))
    × (heartbeats sent ≡ reported tokens net request_one network.lenders)
    × ((token : String) × (ok "token" ≡ ok token)
        × (loan_requests sent ≡ posted_to tokens net request_one token "h..s" network.lenders))
submit_loan_application-sent_example =
    submit_loan_application-sent tokens net request_one "https://registry" 0 network (λ s. refl)
      refl

reported_one :
    reported tokens net request_one network.lenders
    ≡ ("L1", "1b4e28ba", 200) ∷ ("L2", "1b4e28ba", 500) ∷ []
unfolding request_one
reported_one = refl

submit_ocen_loan_request-ocen_input_example :
    let request = request_of config run (ocen_input loan) in
    let acks = acknowledged tokens net request network.lenders in
    let (result, s', sent) = submit_ocen_loan_request tokens net config run (ocen_input loan) 0 in
    (result
      ≡ ok (record {
        submitted = true;
        ack_count = length acks;
        trace_ids = map (λ a. a.trace_id) acks;
      }))
    × (map (named tokens net config) request.loan_applications
        ≡ ("1b4e28ba", some "UNKNOWN", false) ∷ [])
    × ((token : String) × (loan_requests sent
          ≡ posted_to tokens net request token "h..s" network.lenders))
submit_ocen_loan_request-ocen_input_example =
    submit_ocen_loan_request-ocen_input tokens net config run loan 0 network (λ s. refl) refl
