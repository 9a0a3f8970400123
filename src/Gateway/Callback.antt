-- ===== src/Gateway/Callback.antt =====
-- The endpoints of services/borrower_gateway/app.py that start a loan's workflow and that signal the
-- lender's answer to it, over the in-memory service. `show` is the text of a uuid, `verify` the check
-- of a signature over the body; a call of Temporal succeeds or raises, which is only logged.
use Prim.Native.String.{◌++◌}
use project_k_platform.Prelude.{
  ℕ, String, ◌≡◌, refl, Bool, true, Option, none, some, List, [], ◌∷◌, All, All-keep, arith,
  if◌then◌else◌, keep, map, Bool-cases, inl, inr,
}
use project_k_platform.Prelude.Dict.{lookup}
use project_k_platform.Prelude.Eq.{◌==◌, string_eq, nat_eq}
use project_k_platform.Prelude.Result.{Result, ok, err, http_exception}
use project_k_platform.Gateway.Types.{LoanApplicationRequest, LoanApplicationResponse}
use project_k_platform.Gateway.Memory.{
  Application, Service, initiate_application, initiate_by, existing_response,
}
use project_k_platform.Gateway.Idempotency.{IsValid}
use project_k_platform.Integrations.{Offer, text}
use project_k_platform.Orchestrator.Types.{LoanOriginationInput, LenderResponse}
use project_k_platform.Orchestrator.Workflow.{offer_received}
use project_k_platform.Orchestrator.Workflow.Lender.{verdict}

pub record ResponseStatus : Type 0 where
  pub status : String
  pub response_detail : String

-- A callback, as far as it is read; of a loan application only its id is.
pub record CreateLoanApplicationResponse : Type 0 where
  pub trace_id : String
  pub response : ResponseStatus
  pub loan_applications : List String

-- `response.model_dump()`
abbrev pub model_dump : ResponseStatus → Offer
model_dump r = ("status", text r.status) ∷ ("response_detail", text r.response_detail) ∷ []

pub record OcenAckResponse : Type 0 where
  pub trace_id : String
  pub timestamp : ℕ

-- `lender_response_received`, sent to the workflow of an id.
pub record SentSignal : Type 0 where
  pub workflow_id : String
  pub response : LenderResponse

pub record StartedWorkflow : Type 0 where
  pub workflow_id : Option String
  pub input : LoanOriginationInput

-- `_verify_jws`: no signature, or an empty one, is let through.
unfoldable pub verify_jws : (String → Bool) → Option String → Bool
verify_jws verify none = true
verify_jws verify (some signature) = if signature == "" then true else verify signature

abbrev pub signal_of : CreateLoanApplicationResponse → String → SentSignal
signal_of r id = record {
  workflow_id = "loan-origination-" ++ id;
  response = record { offer = some (model_dump r.response); reason = none };
}

-- `create_loan_response`; `reached` says for which signals Temporal does not raise.
unfoldable pub create_loan_response :
    (String → Bool)
    → (SentSignal → Bool)
    → ℕ
    → Option String
    → CreateLoanApplicationResponse
    → Result OcenAckResponse × List SentSignal
unfolding verify_jws
create_loan_response verify reached now signature r =
    if verify_jws verify signature
    then (
      ok (record { trace_id = r.trace_id; timestamp = now }),
      keep reached (map (signal_of r) r.loan_applications),
    )
    else (err (http_exception 401 "Invalid JWS signature"), [])

module _ (show : ℕ → String) where
  -- `loan-{app_id}`
  abbrev pub workflow_of : ℕ → String
  workflow_of id = "loan-" ++ show id

  abbrev pub started_for :
      Bool → LoanApplicationRequest → LoanApplicationResponse → Option StartedWorkflow
  started_for starts request r =
      if starts
      then some (record {
        workflow_id = r.workflow_id;
        input = record {
          loan_application_id = show r.application_id;
          data_principal_id = request.vendor_gstin;
          vendor_gstin = request.vendor_gstin;
        };
      })
      else none

  abbrev pub after_initiate :
      Bool
      → LoanApplicationRequest
      → Result LoanApplicationResponse × Service
      → Result LoanApplicationResponse × Service × Option StartedWorkflow
  after_initiate starts request (ok r, s) = (ok r, s, started_for starts request r)
  after_initiate starts request (err e, s) = (err e, s, none)

  -- `apply_for_loan`
  unfoldable pub apply_for_loan :
      Bool
      → ℕ
      → ℕ
      → LoanApplicationRequest
      → Service
      → Result LoanApplicationResponse × Service × Option StartedWorkflow
  apply_for_loan starts now app_id request s =
      after_initiate starts request (initiate_application workflow_of now app_id request s)

  initiate-workflow :
      (now app_id : ℕ) (request : LoanApplicationRequest) (s : Service) (o : Option ℕ)
      (r : LoanApplicationResponse)
      → IsValid workflow_of s
      → (initiate_by workflow_of o now app_id request s).0 ≡ ok r
      → r.workflow_id ≡ some (workflow_of r.application_id)
  initiate-workflow now app_id request s none r v h = ground arith
  initiate-workflow now app_id request s (some id) r v h = found (lookup id s.applications) refl h
    where
      found :
          (a : Option Application)
          → lookup id s.applications ≡ a
          → existing_response id a ≡ ok r
          → r.workflow_id ≡ some (workflow_of r.application_id)
      found none e k = cc
      found (some a) e k = ground (arith, v.stored id a)

  pub initiated :
      (now app_id : ℕ) (request : LoanApplicationRequest) (s : Service)
      (r : LoanApplicationResponse)
      → IsValid workflow_of s
      → (initiate_application workflow_of now app_id request s).0 ≡ ok r
      → r.workflow_id ≡ some (workflow_of r.application_id)
  unfolding initiate_application
  initiated now app_id request s r v h = initiate-workflow now app_id request s _ r v h

All-map :
    {A B : Type 0} (P : B → Type 0) (f : A → B) (xs : List A)
    → ((x : A) → P (f x))
    → All P (map f xs)
All-map P f [] h = tt
All-map P f (x ∷ xs) h = (h x, All-map P f xs h)

All-signals :
    (P : SentSignal → Type 0) (verify : String → Bool) (reached : SentSignal → Bool) (now : ℕ)
    (signature : Option String) (r : CreateLoanApplicationResponse)
    → ((id : String) → P (signal_of r id))
    → All P (create_loan_response verify reached now signature r).1
unfolding create_loan_response
All-signals P verify reached now signature r h = elim (Bool-cases (verify_jws verify signature)) [
  | inl e ↦ rw e (All-keep P reached _ (All-map P (signal_of r) r.loan_applications h))
  | inr e ↦ rw e tt
]

-- Every signal that `create_loan_response` sends, whatever status the lender reports, makes a workflow
-- whose wait it decides end with an offer.
pub create_loan_response-offers :
    (verify : String → Bool) (reached : SentSignal → Bool) (now : ℕ) (signature : Option String)
    (r : CreateLoanApplicationResponse) (lenders : List String)
    → All
        (λ g.
          verdict lenders (some g.response) ≡ offer_received (some (model_dump r.response)) lenders)
        (create_loan_response verify reached now signature r).1
create_loan_response-offers verify reached now signature r lenders =
    All-signals
      (λ g.
        verdict lenders (some g.response) ≡ offer_received (some (model_dump r.response)) lenders)
      verify reached now signature r (λ id. refl)
