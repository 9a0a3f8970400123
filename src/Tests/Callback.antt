-- ===== src/Tests/Callback.antt =====
-- A loan that is applied for, and the lender's refusal of it.
use project_k_platform.Prelude.{ℕ, String, Bool, true, false, none, some, [], ◌∷◌}
use project_k_platform.Gateway.Types.{LoanApplicationRequest}
use project_k_platform.Gateway.Callback.{CreateLoanApplicationResponse, SentSignal, StartedWorkflow}

abbrev pub show : ℕ → String
show n = "1b4e28ba"

abbrev pub request_one : LoanApplicationRequest
request_one = record {
  invoice_id = 7;
  vendor_gstin = "29AAAAA0000A1Z5";
  anchor_gstin = "27BBBBB0000B1Z5";
  amount_requested = 45000000;
  idempotency_key = none;
}

abbrev refusal : CreateLoanApplicationResponse
refusal = record {
  trace_id = "t";
  response = record { status = "FAILED"; response_detail = "declined" };
  loan_applications = "1b4e28ba" ∷ [];
}

abbrev unchecked : String → Bool
unchecked signature = false

abbrev reached : SentSignal → Bool
reached g = true

abbrev started_one : StartedWorkflow
started_one = record {
  workflow_id = some "loan-1b4e28ba";
  input = record {
    loan_application_id = "1b4e28ba";
    data_principal_id = "29AAAAA0000A1Z5";
    vendor_gstin = "29AAAAA0000A1Z5";
  };
}
