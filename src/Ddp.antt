-- ===== src/Ddp.antt =====
-- services/ddp_engine: the attributes derived for a loan application, and the risk flags on them.
use Prim.Native.String.{◌++◌}
use project_k_platform.Prelude.{
  ℕ, String, Bool, List, [], ◌∷◌, Option, some, if◌then◌else◌, ltb, false, map, inl, inr,
  Bool-cases, ◌≡◌, refl,
}
use project_k_platform.Decimal.{Decimal, less}

pub record DerivedDataRequest (D : Type 0) : Type 0 where
  pub loan_application_id : String
  pub vendor_gstin : String
  pub anchor_gstin : String
  pub invoice_amount : D
  pub gst_returns_months : ℕ

pub record DerivedAttributes (D : Type 0) : Type 0 where
  pub dso_days : ℕ
  pub dpo_days : ℕ
  pub ccc_days : ℕ
  pub revenue_concentration : D
  pub dilution_rate : D
  pub anchor_payment_history_score : D
  pub gst_compliance_score : D
  pub vintage_months : ℕ

pub record RiskFlag : Type 0 where
  pub flag_code : String
  pub severity : String
  pub description : String
  pub threshold : Option String
  pub actual_value : Option String

pub record DerivedDataResponse (D : Type 0) : Type 0 where
  pub loan_application_id : String
  pub vendor_gstin : String
  pub anchor_gstin : String
  pub attributes : DerivedAttributes D
  pub risk_flags : List RiskFlag
  pub ruleset_hash : String
  pub computed_at : String

-- What the service takes from Python: decimals, the decimals written in the code by their text, and
-- `str`.
pub record Python (D : Type 0) : Type 0 where
  pub decimal : Decimal D
  pub literal : String → D
  pub str_decimal : D → String
  pub str_int : ℕ → String

-- The flag, if it is raised, before the rest.
abbrev when : Bool → RiskFlag → List RiskFlag → List RiskFlag
when raised flag rest = if raised then flag ∷ rest else rest

module _ {D : Type 0} (py : Python D) where
  -- The five tests of `_evaluate_risk_flags`.
  unfoldable pub high_concentration : DerivedAttributes D → Bool
  high_concentration a = less py.decimal (py.literal "50") a.revenue_concentration

  unfoldable pub high_dso : DerivedAttributes D → Bool
  high_dso a = ltb 60 a.dso_days

  unfoldable pub high_dilution : DerivedAttributes D → Bool
  high_dilution a = less py.decimal (py.literal "5") a.dilution_rate

  unfoldable pub low_gst_compliance : DerivedAttributes D → Bool
  low_gst_compliance a = less py.decimal a.gst_compliance_score (py.literal "70")

  unfoldable pub low_vintage : DerivedAttributes D → Bool
  low_vintage a = ltb a.vintage_months 6

  unfoldable pub compute_attributes : DerivedDataRequest D → DerivedAttributes D
  compute_attributes request = record {
    dso_days = 45;
    dpo_days = 30;
    ccc_days = 15;
    revenue_concentration = py.literal "35.5";
    dilution_rate = py.literal "2.1";
    anchor_payment_history_score = py.literal "85.0";
    gst_compliance_score = py.literal "92.0";
    vintage_months = request.gst_returns_months;
  }

  unfoldable pub evaluate_risk_flags : DerivedAttributes D → List RiskFlag
  unfolding high_concentration high_dso high_dilution low_gst_compliance low_vintage
  evaluate_risk_flags a = when (high_concentration a) concentration (
      when (high_dso a) dso (
        when (high_dilution a) dilution
          (when (low_gst_compliance a) compliance (when (low_vintage a) vintage []))))
    where
      concentration : RiskFlag
      concentration = record {
        flag_code = "HIGH_CONCENTRATION";
        severity = "high";
        description = "Revenue concentration from single anchor exceeds 50%";
        threshold = some "50%";
        actual_value = some (py.str_decimal a.revenue_concentration ++ "%");
      }

      dso : RiskFlag
      dso = record {
        flag_code = "HIGH_DSO";
        severity = "medium";
        description = "Days Sales Outstanding exceeds 60 days";
        threshold = some "60";
        actual_value = some (py.str_int a.dso_days);
      }

      dilution : RiskFlag
      dilution = record {
        flag_code = "HIGH_DILUTION";
        severity = "medium";
        description = "Invoice dilution rate exceeds 5%";
        threshold = some "5%";
        actual_value = some (py.str_decimal a.dilution_rate ++ "%");
      }

      compliance : RiskFlag
      compliance = record {
        flag_code = "LOW_GST_COMPLIANCE";
        severity = "high";
        description = "GST compliance score below 70";
        threshold = some "70";
        actual_value = some (py.str_decimal a.gst_compliance_score);
      }

      vintage : RiskFlag
      vintage = record {
        flag_code = "LOW_VINTAGE";
        severity = "medium";
        description = "Relationship vintage below 6 months";
        threshold = some "6";
        actual_value = some (py.str_int a.vintage_months);
      }

  unfoldable pub compute_derived_data : String → DerivedDataRequest D → DerivedDataResponse D
  unfolding compute_attributes evaluate_risk_flags
  compute_derived_data now request = record {
    loan_application_id = request.loan_application_id;
    vendor_gstin = request.vendor_gstin;
    anchor_gstin = request.anchor_gstin;
    attributes = compute_attributes request;
    risk_flags = evaluate_risk_flags (compute_attributes request);
    ruleset_hash = "ddp-derived-v1-placeholder";
    computed_at = now;
  }

  -- How the numbers written in the code compare.
  pub record Literals : Type 0 where
    pub below_50 : less py.decimal (py.literal "50") (py.literal "35.5") ≡ false
    pub below_5 : less py.decimal (py.literal "5") (py.literal "2.1") ≡ false
    pub above_70 : less py.decimal (py.literal "92.0") (py.literal "70") ≡ false

  -- Of the five risk flags a computed response can hold only LOW_VINTAGE, and it holds that one
  -- just when the request names fewer than six months of GST returns. Whatever else the vendor, the
  -- anchor and the invoice are, the response has no other flag, since the other attributes are
  -- constants of the code. The numbers in the code are assumed to compare as they are written.
  pub compute_derived_data_flags :
      (literals : Literals) (now : String) (request : DerivedDataRequest D)
      → map (λ f. f.flag_code) (compute_derived_data now request).risk_flags
        ≡ (if ltb request.gst_returns_months 6 then "LOW_VINTAGE" ∷ [] else [])
  unfolding compute_derived_data evaluate_risk_flags compute_attributes high_concentration high_dso
      high_dilution low_gst_compliance low_vintage
  compute_derived_data_flags literals now request =
      elim (Bool-cases (ltb request.gst_returns_months 6)) [
        | inl e ↦ rw (literals.below_50, literals.below_5, literals.above_70, e) refl
        | inr e ↦ rw (literals.below_50, literals.below_5, literals.above_70, e) refl
      ]
