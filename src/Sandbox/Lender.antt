-- ===== src/Sandbox/Lender.antt =====
-- sandbox/clients/lender_client.py, the lender of the sandbox, and `accept_offer` of ocen_client.py. The
-- settings of sandbox/config.py are arguments.
use Prim.Native.String.{◌++◌, slice}
use project_k_platform.Prelude.{ℕ, String, Bool, Option, none, some, if◌then◌else◌, or_default}

pub record LenderDecision : Type 0 where
  pub application_id : String
  pub status : String
  pub amount_sanctioned : Option String
  pub interest_rate : Option String
  pub tenure_days : Option ℕ

pub record AcceptanceResponse : Type 0 where
  pub offer_id : String
  pub status : String
  pub disbursement_eta : Option String

-- The SANDBOX_LENDER settings.
pub record LenderSettings : Type 0 where
  pub auto_approve : Bool
  pub max_amount : String
  pub interest_rate : String
  pub tenure_days : ℕ

-- `__init__`: the argument, or the setting where it is None.
unfoldable pub lender_auto_approve : LenderSettings → Option Bool → Bool
lender_auto_approve settings auto_approve = or_default auto_approve settings.auto_approve

unfoldable pub register_webhook : String → String → String
register_webhook application_id callback_url = "sandbox-webhook-" ++ slice application_id 0 8

unfoldable pub poll_decision : LenderSettings → Bool → String → LenderDecision
poll_decision settings auto_approve application_id =
    if auto_approve
    then record {
      application_id = application_id;
      status = "approved";
      amount_sanctioned = some settings.max_amount;
      interest_rate = some settings.interest_rate;
      tenure_days = some settings.tenure_days;
    }
    else record {
      application_id = application_id;
      status = "rejected";
      amount_sanctioned = none;
      interest_rate = none;
      tenure_days = none;
    }

unfoldable pub accept_offer : String → AcceptanceResponse
accept_offer offer_id = record {
  offer_id = offer_id;
  status = "accepted";
  disbursement_eta = some "2026-07-14T10:00:00Z";
}
