-- ===== src/Tests/Db.antt =====
-- A small database: a vendor with one loan and one consent. The digest is the text itself.
use project_k_platform.Prelude.{
  ℕ, String, ◌≡◌, ◌↔◌, ◌≢◌, refl, true, false, none, some, [], ◌∷◌, arith, eq_iff,
}
use project_k_platform.Prelude.Eq.{◌==◌, string_eq}
use project_k_platform.Prelude.Result.{ok}
use project_k_platform.Db.{LoanRow, VendorRow, ConsentRow, Db}
use project_k_platform.Db.DataSource.{collect, erased, legal_hold_active, erase, has_legal_hold}
use project_k_platform.Db.Erasure.{SomeHolds, erase-collect, erase-collect_other, erase-held}
use project_k_platform.Db.Reregistered.{erase-reregistered}
use project_k_platform.Db.Retention.{enforce_vendors}

abbrev digest : String → String
digest t = t

abbrev loan_one : LoanRow
loan_one = record {
  id = 1;
  invoice_id = 7;
  vendor_gstin = "29A";
  anchor_gstin = "27B";
  amount_requested = 1000;
  status = "initiated";
  current_gate = none;
  workflow_id = none;
  idempotency_key = none;
  selected_lender_id = none;
  offer_data = none;
  amount_sanctioned = none;
  created_at = 50;
  updated_at = 50;
  vendor_gstin_enc = none;
  vendor_gstin_idx = none;
  anchor_gstin_enc = none;
  anchor_gstin_idx = none;
}

abbrev vendor_of : ℕ → String → VendorRow
vendor_of id gstin = record {
  id = id;
  name = "Acme";
  gstin = gstin;
  udyam_number = none;
  onboarded_at = 10;
  name_enc = none;
  gstin_enc = none;
  gstin_idx = none;
  udyam_number_enc = none;
  udyam_number_idx = none;
}

abbrev consent_one : ConsentRow
consent_one = record {
  id = 1;
  data_principal_id = "29A";
  purpose = "loan_origination";
  granted = true;
  granted_at = some 40;
}

abbrev pub db_one : Db
db_one = record {
  loans = loan_one ∷ [];
  vendors = vendor_of 1 "29A" ∷ vendor_of 2 "30C" ∷ [];
  consents = consent_one ∷ [];
}

-- The same with the loan paid out.
abbrev disbursed_loan : LoanRow
disbursed_loan = record loan_one { status = "disbursed" }

abbrev db_held : Db
db_held = record db_one { loans = disbursed_loan ∷ [] }

-- The vendor again, after an erasure.
abbrev db_again : Db
db_again = record {
  loans = [];
  vendors = vendor_of 3 "29A" ∷ vendor_of 1 "V-29A" ∷ [];
  consents = [];
}

differs : (s t : String) → (s == t) ≡ false → s ≢ t
differs s t h e = ground (arith, eq_iff s t)

erase_one : (erase digest 100 "29A" db_one).0 ≡ ok erased
unfolding erase has_legal_hold
erase_one = refl

erase-collect_example :
    collect "29A" (erase digest 100 "29A" db_one).1
    ≡ ok (record { vendor = none; loan_applications = []; consents = [] })
erase-collect_example =
    erase-collect digest 100 "29A" db_one (differs "V-29A" "29A" refl) (differs "P-29A" "29A" refl)
      erase_one

erase-collect_other_example : collect "30C" (erase digest 100 "29A" db_one).1 ≡ collect "30C" db_one
erase-collect_other_example =
    erase-collect_other digest 100 "29A" "30C" db_one (differs "29A" "30C" refl)
      (differs "V-29A" "30C" refl) (differs "P-29A" "30C" refl)

erase-held_example :
    (erase digest 100 "29A" db_held ≡ (ok legal_hold_active, db_held))
    ↔ SomeHolds 100 "29A" db_held.loans
erase-held_example = erase-held digest 100 "29A" db_held

erase-reregistered_example :
    ((erase digest 100 "29A" db_again).0 ≢ ok erased)
    × ((erase digest 100 "29A" db_again).1 ≡ db_again)
unfolding has_legal_hold
erase-reregistered_example =
    erase-reregistered digest 100 "29A" db_again refl refl refl (differs "V-29A" "29A" refl)

abbrev closed_db : Db
closed_db = record db_one { loans = record loan_one { status = "closed" } ∷ [] }

-- A hundred days later, with a period of one day.
abbrev late : ℕ
late = 8640000

vendors_one : (enforce_vendors digest late 1 closed_db).0 ≡ ok 2
unfolding enforce_vendors
vendors_one = refl
