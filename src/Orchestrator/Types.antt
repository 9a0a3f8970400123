-- ===== src/Orchestrator/Types.antt =====
-- The inputs and results that workflows and activities exchange: the dataclasses of
-- services/la_orchestrator/activities.py and workflows.py, and the dicts that activities return.
-- A dict result is a record; a key that a workflow reads by `.get` with a default is an `Option`.
use project_k_platform.Prelude.{ℕ, String, Bool, Option, List}
use project_k_platform.Rules.{Context}
use project_k_platform.Integrations.{Offer}

pub record EvaluateDecisionInput : Type 0 where
  pub loan_application_id : String
  pub gate : String
  pub ruleset_name : String
  pub context : Option Context

pub record DecisionResult : Type 0 where
  pub outcome : String
  pub reason : Option String
  pub ruleset_hash : String
  pub input_hash : String
  pub receipt_id : String
  pub matched_lender_ids : Option (List String)

pub record CheckDpdpConsentInput : Type 0 where
  pub loan_application_id : String
  pub data_principal_id : String
  pub purposes : List String

pub record ConsentResult : Type 0 where
  pub allowed : Bool
  pub reason : Option String

pub record FetchAaDataInput : Type 0 where
  pub loan_application_id : String
  pub vendor_gstin : String
  pub data_principal_id : String

pub record AaResult : Type 0 where
  pub data_received : Bool
  pub months_available : ℕ
  pub fips_responded : List String
  pub gst_returns_count : Option ℕ
  pub aa_consent_id : Option String

pub record SubmitToLenderInput : Type 0 where
  pub loan_application_id : String
  pub lender_ids : List String

pub record SubmitResult : Type 0 where
  pub offer_received : Option Bool
  pub offer : Option Offer
  pub submission_id : String

-- `requested_amount` (0.0) and `tenure_months` (3) keep their defaults: no caller sets them.
pub record SubmitOcenLoanRequestInput : Type 0 where
  pub loan_application_id : String
  pub borrower_gstin : String
  pub borrower_name : String

pub record OcenSubmitResult : Type 0 where
  pub submitted : Bool
  pub ack_count : ℕ
  pub trace_ids : List String

-- The dict that the OCEN callback signals: its `offer` and `reason` are read by `.get`.
pub record LenderResponse : Type 0 where
  pub offer : Option Offer
  pub reason : Option String

pub record LoanOriginationInput : Type 0 where
  pub loan_application_id : String
  pub data_principal_id : String
  pub vendor_gstin : String

-- `LoanOriginationInput | str`: the bare id is the legacy form.
pub data WorkflowInput : Type 0 where
  legacy : String → WorkflowInput
  structured : LoanOriginationInput → WorkflowInput
