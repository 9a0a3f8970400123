-- ===== src/Db/DataSource.antt =====
-- PlatformDataSource of libs/db/data_source.py: access and erasure of a data principal's records.
-- `sha256` is the hex digest of a text.
use project_k_platform.Prelude.{
  ℕ, String, Bool, ◌&&◌, ◌||◌, Option, none, some, List, map, any, keep, if◌then◌else◌,
}
use Prim.Native.String.{◌++◌, slice}
use project_k_platform.Prelude.Eq.{◌==◌, string_eq, nat_eq}
use project_k_platform.Prelude.Result.{Result, ok, err, ◌>>=◌}
use project_k_platform.Db.{
  LoanRow, VendorRow, ConsentRow, Db, days, is_within, scalar_one_or_none, update_where, has_gstin,
  commit,
}

pub record VendorData : Type 0 where
  pub name : String
  pub gstin : String
  pub udyam_number : Option String

pub record LoanData : Type 0 where
  pub id : ℕ
  pub status : String
  pub amount_requested : ℕ
  pub created_at : ℕ

pub record ConsentData : Type 0 where
  pub purpose : String
  pub granted : Bool
  pub granted_at : Option ℕ

pub record Collected : Type 0 where
  pub vendor : Option VendorData
  pub loan_applications : List LoanData
  pub consents : List ConsentData

abbrev pub vendor_data : Option VendorRow → Option VendorData
vendor_data none = none
vendor_data (some v) =
    some (record { name = v.name; gstin = v.gstin; udyam_number = v.udyam_number })

abbrev pub loan_data : LoanRow → LoanData
loan_data l = record {
  id = l.id;
  status = l.status;
  amount_requested = l.amount_requested;
  created_at = l.created_at;
}

abbrev pub consent_data : ConsentRow → ConsentData
consent_data c = record { purpose = c.purpose; granted = c.granted; granted_at = c.granted_at }

abbrev pub of_vendor : String → LoanRow → Bool
of_vendor g l = l.vendor_gstin == g

abbrev pub of_principal : String → ConsentRow → Bool
of_principal p c = c.data_principal_id == p

unfoldable pub collect : String → Db → Result Collected
collect principal db = do
  vendor ← scalar_one_or_none (keep (has_gstin principal) db.vendors)
  ok (record {
    vendor = vendor_data vendor;
    loan_applications = map loan_data (keep (of_vendor principal) db.loans);
    consents = map consent_data (keep (of_principal principal) db.consents);
  })

-- A loan that the regulator's seven years (2555 days) still cover.
abbrev pub is_held : ℕ → String → LoanRow → Bool
is_held now principal l =
    of_vendor principal l
    && ((l.status == "disbursed" || l.status == "repaying" || l.status == "closed")
        && is_within now (days 2555) l.created_at)

unfoldable pub has_legal_hold : ℕ → String → Db → Bool
has_legal_hold now principal db = any (is_held now principal) db.loans

pub data Erasure : Type 0 where
  erased : Erasure
  legal_hold_active : Erasure

module _ (sha256 : String → String) where
  abbrev pub vendor_pseudonym : String → String
  vendor_pseudonym g = "V-" ++ slice (sha256 g) 0 13

  abbrev pub principal_pseudonym : String → String
  principal_pseudonym g = "P-" ++ slice (sha256 g) 0 12

  abbrev pub pseudonymize_vendor : VendorRow → VendorRow
  pseudonymize_vendor v = record v {
    name = "Vendor-" ++ slice (sha256 v.gstin) 0 8;
    gstin = vendor_pseudonym v.gstin;
    udyam_number = none;
    name_enc = none;
    gstin_enc = none;
    gstin_idx = none;
    udyam_number_enc = none;
    udyam_number_idx = none;
  }

  abbrev pub pseudonymize_loan : ℕ → LoanRow → LoanRow
  pseudonymize_loan now l = record l {
    vendor_gstin = vendor_pseudonym l.vendor_gstin;
    vendor_gstin_enc = none;
    vendor_gstin_idx = none;
    updated_at = now;
  }

  abbrev pub pseudonymize_consent : ConsentRow → ConsentRow
  pseudonymize_consent c = record c { data_principal_id = principal_pseudonym c.data_principal_id }

  -- The tables as `erase` leaves them before the commit.
  abbrev pub erased_tables : ℕ → String → Db → Db
  erased_tables now principal db = record {
    loans = update_where (of_vendor principal) (pseudonymize_loan now) db.loans;
    vendors = update_where (has_gstin principal) pseudonymize_vendor db.vendors;
    consents = update_where (of_principal principal) pseudonymize_consent db.consents;
  }

  abbrev pub erase_rows : Result (Option VendorRow) → ℕ → String → Db → Result Erasure × Db
  erase_rows (err e) now principal db = (err e, db)
  erase_rows (ok vendor) now principal db = commit db (erased_tables now principal db) erased

  unfoldable pub erase : ℕ → String → Db → Result Erasure × Db
  unfolding has_legal_hold
  erase now principal db =
      if has_legal_hold now principal db
      then (ok legal_hold_active, db)
      else erase_rows (scalar_one_or_none (keep (has_gstin principal) db.vendors)) now principal db
