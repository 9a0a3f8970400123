-- ===== src/Tests/Migration.antt =====
-- A table of two vendors without Udyam numbers, and the witness of the theorem on the backfill.
use project_k_platform.Prelude.{
  String, Option, none, some, [], ◌∷◌, ◌≡◌, ◌≢◌, refl, arith, if◌then◌else◌,
}
use project_k_platform.Prelude.Eq.{◌==◌, string_eq, unequal}
use Prim.Native.String.{◌++◌}
use project_k_platform.Migration.{Row, Crypto}
use project_k_platform.Migration.Encrypted.{AreFilled}
use project_k_platform.Migration.Upgrade.{
  Tables, upgrade, anchor_columns, vendor_columns, loan_columns, upgrade-AreFilled,
}

abbrev crypto : Crypto String
crypto = record {
  version = "1";
  encode = λ s. s;
  concat = λ s t. s ++ t;
  urandom = λ n. "nonce";
  encrypt = λ key nonce s. key ++ nonce ++ s;
  sha256 = λ s. s;
  hmac = λ key s. key ++ s;
  encryption_key = "key";
  index_key = "idx";
}

abbrev of_vendor : String → Option String
of_vendor col = if col == "name" then some "Acme" else if col == "gstin" then some "27A" else none

abbrev first_vendor : Row String
first_vendor = record { id = "v1"; plain = of_vendor; enc = λ _. none; idx = λ _. none }

abbrev second_vendor : Row String
second_vendor = record { id = "v2"; plain = of_vendor; enc = λ _. none; idx = λ _. none }

abbrev tables : Tables String
tables = record {
  anchors = [];
  vendors = first_vendor ∷ second_vendor ∷ [];
  loan_applications = [];
}

v2_differs : ◌≢◌ {A = String} "v2" "v1"
v2_differs = unequal "v2" "v1" refl

upgrade-AreFilled_example :
    (after : Tables String) × (upgrade crypto 3 0 tables ≡ some after)
    × AreFilled crypto anchor_columns [] after.anchors
    × AreFilled crypto vendor_columns (first_vendor ∷ second_vendor ∷ []) after.vendors
    × AreFilled crypto loan_columns [] after.loan_applications
upgrade-AreFilled_example =
    upgrade-AreFilled crypto 3 0 tables (omega arith) (omega arith) (omega arith) tt
      ((v2_differs, tt), (tt, tt)) tt
