-- ===== src/Gateway/Endpoints.antt =====
-- The endpoints of services/borrower_gateway/app.py beside those of Callback: the status of a loan, the
-- capture of an invoice, and the callbacks of the OCEN network that check the signature and
-- acknowledge. `verify` is the check of a signature over the body.
use project_k_platform.Prelude.{ℕ, String, Bool, Option, none, if◌then◌else◌}
use project_k_platform.Prelude.Result.{Result, ok, err, key_error, http_exception}
use project_k_platform.Gateway.Types.{LoanApplicationStatus}
use project_k_platform.Gateway.Memory.{Service, get_status}
use project_k_platform.Gateway.Callback.{verify_jws}
use project_k_platform.Ocen.{CreateLoanApplicationResponse, OcenAckResponse}

-- A KeyError becomes 404.
abbrev pub or_not_found : Result LoanApplicationStatus → Result LoanApplicationStatus
or_not_found (ok s) = ok s
or_not_found (err (key_error e)) = err (http_exception 404 e)
or_not_found (err e) = err e

unfoldable pub get_loan_status : ℕ → Service → Result LoanApplicationStatus
unfolding get_status
get_loan_status application_id s = or_not_found (get_status application_id s)

-- An amount is a number of millionths.
pub record InvoiceCapturedRequest : Type 0 where
  pub irn : String
  pub invoice_number : String
  pub vendor_gstin : String
  pub anchor_gstin : String
  pub amount : ℕ
  pub invoice_date : String
  pub due_date : String
  pub currency : String
  pub participant_id : Option String

pub record InvoiceCapturedResponse : Type 0 where
  pub invoice_id : ℕ
  pub irn : String
  pub status : String
  pub message : String

-- `invoice_id` is the new uuid; the invoice is not kept.
unfoldable pub capture_invoice : ℕ → InvoiceCapturedRequest → InvoiceCapturedResponse
capture_invoice invoice_id request = record {
  invoice_id = invoice_id;
  irn = request.irn;
  status = "captured";
  message = "Invoice captured. Ready for loan application.";
}

-- The callbacks that only acknowledge.
pub data Callback : Type 0 where
  generate_offers_response set_offers_response loan_agreement_response : Callback
  grant_loan_response trigger_disbursement_response trigger_repayment_response : Callback
  set_repayment_plan_response : Callback

-- Their bodies are the same.
unfoldable pub acknowledge :
    (String → Bool)
    → Callback
    → Option String
    → CreateLoanApplicationResponse
    → Result OcenAckResponse
unfolding verify_jws
acknowledge verify callback signature r =
    if verify_jws verify signature
    then ok
        (record { error = none; trace_id = r.metadata.trace_id; timestamp = r.metadata.timestamp })
    else err (http_exception 401 "Invalid JWS signature")
