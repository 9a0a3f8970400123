-- ===== src/Tests/Ddp.antt =====
-- The derived data of one request.
use project_k_platform.Prelude.{String, ℕ, ◌≡◌, refl, if◌then◌else◌, [], ◌∷◌, map}
use project_k_platform.Prelude.Eq.{◌==◌, string_eq}
use project_k_platform.Tests.Trust.{hundredths}
use project_k_platform.Ddp.{Python, DerivedDataRequest, compute_derived_data}

-- Tenths, to tell the literals apart.
abbrev number : String → ℕ
number s =
    if s == "50"
    then 500
    else if s == "35.5"
    then 355
    else if s == "5"
    then 50
    else if s == "2.1"
    then 21
    else if s == "92.0"
    then 920
    else 700

abbrev python : Python ℕ
python = record {
  decimal = hundredths;
  literal = number;
  str_decimal = λ d. "a decimal";
  str_int = λ n. "an int";
}

abbrev request : DerivedDataRequest ℕ
request = record {
  loan_application_id = "a";
  vendor_gstin = "v";
  anchor_gstin = "b";
  invoice_amount = 1000;
  gst_returns_months = 5;
}

-- With five months of returns the vintage is low.
flags_of_request :
    map (λ f. f.flag_code) (compute_derived_data python "now" request).risk_flags
    ≡ "LOW_VINTAGE" ∷ []
unfolding compute_derived_data
flags_of_request = refl
