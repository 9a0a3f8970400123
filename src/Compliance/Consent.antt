-- ===== src/Compliance/Consent.antt =====
-- `get_consent_status` of services/borrower_gateway/dpdp_api.py, over a client of the consent ledger.
use project_k_platform.Prelude.{String, Bool, List, [], ◌∷◌}
use project_k_platform.Prelude.Result.{Result, ok, err}
use project_k_platform.Integrations.{ConsentCheckResult, ConsentClient, Method}

-- The dict of one consent record.
pub record ConsentRecord : Type 0 where
  pub purposes : List String
  pub allowed : Bool
  pub reason : String

pub record ConsentStatusResponse : Type 0 where
  pub data_principal_id : String
  pub consents : List ConsentRecord

abbrev pub status_purposes : List String
status_purposes = "loan_origination" ∷ "kind1_attestation" ∷ []

abbrev pub consent_answer : String → Result ConsentCheckResult → Result ConsentStatusResponse
consent_answer data_principal_id (err e) = err e
consent_answer data_principal_id (ok r) = ok (record {
  data_principal_id = data_principal_id;
  consents = record { purposes = status_purposes; allowed = r.allowed; reason = r.reason } ∷ [];
})

unfoldable pub get_consent_status :
    {S : Type 0} → ConsentClient S → String → Method S ConsentStatusResponse
get_consent_status client data_principal_id s =
    let (result, s') = client.check_consent data_principal_id status_purposes s in
    (consent_answer data_principal_id result, s')
