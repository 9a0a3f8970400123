-- ===== src/Integrations.antt =====
-- libs/integrations: the records of protocols.py that the activities exchange with external
-- services, each service as an interface over its own state, and the mode switch of factory.py.
use project_k_platform.Prelude.{ℕ, String, Bool, Option, List, if◌then◌else◌}
use project_k_platform.Prelude.Dict.{Dict}
use project_k_platform.Prelude.Eq.{◌==◌, string_eq}
use project_k_platform.Prelude.Result.{runtime_error, not_implemented_error, Result, ok, err, ◌>>=◌}

pub record ConsentResponse : Type 0 where
  pub consent_id : String
  pub redirect_url : String
  pub status : String

pub record ConsentStatus : Type 0 where
  pub consent_id : String
  pub status : String
  pub approved_at : Option String

-- Of the bank statements only the bank's name is read, which may be missing.
pub record FinancialData : Type 0 where
  pub consent_id : String
  pub months_available : ℕ
  pub bank_names : List (Option String)
  pub gst_returns : List (Dict String String)

pub record SubmissionResponse : Type 0 where
  pub submission_id : String
  pub status : String
  pub lender_acks : List String

-- An offer is a dict of texts, one of whose values, the terms, is a dict again.
pub data OfferValue : Type 0 where
  text : String → OfferValue
  terms : Dict String String → OfferValue

abbrev pub Offer : Type 0
Offer = Dict String OfferValue

pub record OfferStatus : Type 0 where
  pub submission_id : String
  pub status : String
  pub offers : List Offer

pub record ConsentCheckResult : Type 0 where
  pub allowed : Bool
  pub reason : String

pub record GstinValidation : Type 0 where
  pub gstin : String
  pub valid : Bool
  pub trade_name : Option String
  pub status : String

-- A call changes the client's state and returns a value or raises.
abbrev pub Method : Type 0 → Type 0 → Type 0
Method S A = S → Result A × S

pub record AaClient (S : Type 0) : Type 0 where
  pub create_consent : String → String → ℕ → Method S ConsentResponse
  pub check_consent_status : String → Method S ConsentStatus
  pub fetch_financial_data : String → Method S FinancialData

pub record ConsentClient (S : Type 0) : Type 0 where
  pub check_consent : String → List String → Method S ConsentCheckResult
  pub link_aa_consent : String → String → String → Method S Unit

pub record OcenClient (S : Type 0) : Type 0 where
  pub submit_application : String → List String → Method S SubmissionResponse
  pub check_offer_status : String → Method S OfferStatus

pub data Mode : Type 0 where
  sandbox live : Mode

-- `_get_mode`, on the value of INTEGRATION_MODE ("" when it is not set).
unfoldable pub get_mode : String → Result Mode
get_mode mode =
    if mode == "sandbox"
    then ok sandbox
    else if mode == "live"
    then ok live
    else err (runtime_error "INTEGRATION_MODE environment variable must be set")

abbrev sandbox_only : {A : Type 0} → String → A → Mode → Result A
sandbox_only what client sandbox = ok client
sandbox_only what client live = err (not_implemented_error what)

-- `get_aa_client`, `get_ocen_client`, `get_gst_client` and `get_lender_client` share one shape: the
-- sandbox client, and no live one.
unfoldable pub get_client : {A : Type 0} → String → A → String → Result A
unfolding get_mode
get_client what client mode = do m ← get_mode mode; sandbox_only what client m

abbrev consent_by_mode : {A : Type 0} → A → A → Mode → Result A
consent_by_mode sandboxed ledger sandbox = ok sandboxed
consent_by_mode sandboxed ledger live = ok ledger

-- `get_consent_client`: the live one is the ledger of the dpdp_core package.
unfoldable pub get_consent_client : {A : Type 0} → A → A → String → Result A
unfolding get_mode
get_consent_client sandboxed ledger mode = do m ← get_mode mode; consent_by_mode sandboxed ledger m
