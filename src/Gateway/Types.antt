-- ===== src/Gateway/Types.antt =====
-- The requests and responses of services/borrower_gateway/models.py that the service exchanges. An
-- amount is a number of millionths, and a uuid and a time are numbers.
use project_k_platform.Prelude.{ℕ, String, Option}

pub record LoanApplicationRequest : Type 0 where
  pub invoice_id : ℕ
  pub vendor_gstin : String
  pub anchor_gstin : String
  pub amount_requested : ℕ
  pub idempotency_key : Option String

pub record LoanApplicationResponse : Type 0 where
  pub application_id : ℕ
  pub invoice_id : ℕ
  pub status : String
  pub workflow_id : Option String
  pub message : String

pub record LoanApplicationStatus : Type 0 where
  pub application_id : ℕ
  pub status : String
  pub current_gate : Option String
  pub amount_requested : Option ℕ
  pub amount_sanctioned : Option ℕ
  pub lender_id : Option String
  pub created_at : Option ℕ
  pub updated_at : Option ℕ

abbrev pub initiated_message : String
initiated_message = "Loan application initiated. D0 Kind 1 gate evaluation starting."

abbrev pub existing_message : String
existing_message = "Existing application returned (idempotent)."
