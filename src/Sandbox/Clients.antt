-- ===== src/Sandbox/Clients.antt =====
-- sandbox/clients: the account aggregator, consent ledger and OCEN clients of the sandbox.
-- Delays are left out, `uuid4().hex[:8]` is the argument `fresh`, and an environment setting is an
-- argument. Each satisfies the interface that the activities take.
use project_k_platform.Prelude.{
  ℕ, String, Bool, true, false, Option, none, some, List, [], ◌∷◌, if◌then◌else◌, or_default,
}
use Prim.Native.String.{◌++◌}
use project_k_platform.Prelude.Dict.{Dict, lookup, insert}
use project_k_platform.Prelude.Eq.{◌==◌, string_eq}
use project_k_platform.Prelude.Result.{Result, ok}
use project_k_platform.Integrations.{
  ConsentResponse, ConsentStatus, FinancialData, SubmissionResponse, OfferStatus,
  ConsentCheckResult, Offer, text, terms, AaClient, ConsentClient, OcenClient, Method,
}
use project_k_platform.Sandbox.Scenario.{ScenarioState, next_response}

-- `SandboxAAClient._consents`
abbrev pub AaState : Type 0
AaState = Dict String String

abbrev pub filed : String → String → Dict String String
filed period turnover =
    ("period", period)
    ∷ ("gstr1_filed", "True")
    ∷ ("gstr3b_filed", "True")
    ∷ ("turnover", turnover)
    ∷ []

abbrev pub sandbox_gst_returns : List (Dict String String)
sandbox_gst_returns =
    filed "2026-01" "850000"
    ∷ filed "2026-02" "920000"
    ∷ filed "2026-03" "780000"
    ∷ filed "2026-04" "1100000"
    ∷ filed "2026-05" "950000"
    ∷ (("period", "2026-06")
        ∷ ("gstr1_filed", "True")
        ∷ ("gstr3b_filed", "False")
        ∷ ("turnover", "870000")
        ∷ [])
    ∷ []

module _ (auto_approve : Bool) (fresh : String) where
  unfoldable pub aa_create_consent : String → String → ℕ → Method AaState ConsentResponse
  aa_create_consent vendor_gstin purpose duration_months s =
      let consent_id : String = "sandbox-consent-" ++ fresh in
      let status : String = if auto_approve then "approved" else "pending" in
      (
        ok (record {
          consent_id = consent_id;
          redirect_url = "https://sandbox-aa.local/consent/" ++ consent_id;
          status = status;
        }),
        insert consent_id status s,
      )

  unfoldable pub aa_check_consent_status : String → Method AaState ConsentStatus
  aa_check_consent_status consent_id s =
      let status : String = or_default (lookup consent_id s) "not_found" in
      (
        ok (record {
          consent_id = consent_id;
          status = status;
          approved_at = if status == "approved" then some "2026-07-12T10:00:00Z" else none;
        }),
        s,
      )

  unfoldable pub aa_fetch_financial_data : String → Method AaState FinancialData
  aa_fetch_financial_data consent_id s = (
    ok (record {
      consent_id = consent_id;
      months_available = 6;
      bank_names = some "State Bank of India" ∷ [];
      gst_returns = sandbox_gst_returns;
    }),
    s,
  )

  unfoldable pub sandbox_aa : AaClient AaState
  unfolding aa_create_consent aa_check_consent_status aa_fetch_financial_data
  sandbox_aa = record {
    create_consent = aa_create_consent;
    check_consent_status = aa_check_consent_status;
    fetch_financial_data = aa_fetch_financial_data;
  }

-- What a scenario's consent step answers: each key may be left out.
pub record ConsentScript : Type 0 where
  pub allowed : Option Bool
  pub reason : Option String

-- The scenario in force, and `SandboxConsentClient._linked_consents`.
pub record ConsentState : Type 0 where
  pub scenario : Option (ScenarioState ConsentScript)
  pub linked_consents : Dict String String

module _ (denied : Bool) where
  abbrev by_setting : ConsentState → Result ConsentCheckResult × ConsentState
  by_setting s =
      if denied
      then (ok (record { allowed = false; reason = "consent_not_granted" }), s)
      else (ok (record { allowed = true; reason = "sandbox_auto_grant" }), s)

  abbrev scripted : Option ConsentScript → ConsentState → Result ConsentCheckResult × ConsentState
  scripted none s = by_setting s
  scripted (some r) s =
      (ok (record { allowed = or_default r.allowed true; reason = or_default r.reason "" }), s)

  abbrev by_scenario :
      Option (ScenarioState ConsentScript) → ConsentState → Result ConsentCheckResult × ConsentState
  by_scenario none s = by_setting s
  by_scenario (some sc) s =
      let (response, sc') = next_response "consent_check" sc in
      scripted response (record s { scenario = some sc' })

  unfoldable pub check_consent : String → List String → Method ConsentState ConsentCheckResult
  check_consent data_principal_id purposes s = by_scenario s.scenario s

  unfoldable pub link_aa_consent : String → String → String → Method ConsentState Unit
  link_aa_consent data_principal_id aa_consent_id loan_application_id s = (
    ok tt,
    record s { linked_consents = insert loan_application_id aa_consent_id s.linked_consents },
  )

  unfoldable pub sandbox_consent : ConsentClient ConsentState
  unfolding check_consent link_aa_consent
  sandbox_consent = record { check_consent = check_consent; link_aa_consent = link_aa_consent }

pub record Submission : Type 0 where
  pub application_id : String
  pub lender_ids : List String
  pub status : String

abbrev pub sandbox_offer : Offer
sandbox_offer =
    ("lender_id", text "sandbox-lender-nbfc-001")
    ∷ ("lender_name", text "Partner NBFC (Sandbox)")
    ∷ ("amount_offered", text "450000.00")
    ∷ ("interest_rate", text "14.5")
    ∷ ("tenure_days", text "90")
    ∷ ("processing_fee_pct", text "1.5")
    ∷ (
      "terms",
      terms (
          ("prepayment_allowed", "true")
          ∷ ("prepayment_penalty_pct", "2.0")
          ∷ ("insurance_required", "false")
          ∷ []),
    )
    ∷ []

module _ (fresh : String) where
  unfoldable pub submit_application :
      String → List String → Method (Dict String Submission) SubmissionResponse
  submit_application application_id lender_ids s =
      let submission_id : String = "sandbox-sub-" ++ fresh in
      (
        ok (record {
          submission_id = submission_id;
          status = "submitted";
          lender_acks = lender_ids;
        }),
        insert submission_id
            (record {
              application_id = application_id;
              lender_ids = lender_ids;
              status = "offer_available";
            })
            s,
      )

  unfoldable pub check_offer_status : String → Method (Dict String Submission) OfferStatus
  check_offer_status submission_id s = (
    ok (record {
      submission_id = submission_id;
      status = "offer_available";
      offers = sandbox_offer ∷ [];
    }),
    s,
  )

  unfoldable pub sandbox_ocen : OcenClient (Dict String Submission)
  unfolding submit_application check_offer_status
  sandbox_ocen = record {
    submit_application = submit_application;
    check_offer_status = check_offer_status;
  }
