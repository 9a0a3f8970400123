-- ===== src/Db/Retention.antt =====
-- libs/db/retention_handlers.py: pseudonymisation of closed loans and of inactive vendors past
-- their retention period.
use text.Mathlib.Text.{starts_with}
use Prim.Native.String.{◌++◌, slice}
use project_k_platform.Prelude.{
  ℕ, String, Bool, not, ◌&&◌, ◌||◌, Option, none, some, List, any, count_if, if◌then◌else◌,
}
use project_k_platform.Prelude.Eq.{◌==◌, string_eq, nat_eq}
use project_k_platform.Prelude.Result.{Result, ok}
use project_k_platform.Db.{LoanRow, VendorRow, Db, days, is_older, update_where, commit}
use project_k_platform.Db.DataSource.{of_vendor, vendor_pseudonym, pseudonymize_vendor}

-- `.not_like("V-%")` is the negation of this.
abbrev pub is_pseudonym : String → Bool
is_pseudonym g = starts_with g "V-"

abbrev pub loan_expired : ℕ → ℕ → LoanRow → Bool
loan_expired now retention l =
    l.status == "closed"
    && (is_older now (days retention) l.updated_at && not (is_pseudonym l.vendor_gstin))

abbrev pub is_active : String → Bool
is_active status = status == "created" || status == "disbursed" || status == "repaying"

abbrev pub has_active_loan : List LoanRow → String → Bool
has_active_loan loans g = any (λ l. of_vendor g l && is_active l.status) loans

-- The vendors that the query selects and the loop does not skip.
abbrev pub vendor_expired : ℕ → ℕ → List LoanRow → VendorRow → Bool
vendor_expired now retention loans v =
    is_older now (days retention) v.onboarded_at
    && (not (is_pseudonym v.gstin) && not (has_active_loan loans v.gstin))

module _ (sha256 : String → String) where
  abbrev pub anonymize_loan : ℕ → LoanRow → LoanRow
  anonymize_loan now l = record l {
    vendor_gstin = vendor_pseudonym sha256 l.vendor_gstin;
    vendor_gstin_enc = none;
    vendor_gstin_idx = none;
    anchor_gstin = "A-" ++ slice (sha256 l.anchor_gstin) 0 13;
    anchor_gstin_enc = none;
    anchor_gstin_idx = none;
    updated_at = now;
  }

  -- `LoanApplicationRetentionHandler.enforce`; a commit with no change is no different from none.
  unfoldable pub enforce_loans : ℕ → ℕ → Db → Result ℕ × Db
  enforce_loans now retention db = (
    ok (count_if (loan_expired now retention) db.loans),
    record db { loans = update_where (loan_expired now retention) (anonymize_loan now) db.loans },
  )

  abbrev pub anonymized : ℕ → ℕ → Db → Db
  anonymized now retention db = record db {
    vendors =
        update_where (vendor_expired now retention db.loans) (pseudonymize_vendor sha256)
          db.vendors;
  }

  -- `VendorContactRetentionHandler.enforce`
  unfoldable pub enforce_vendors : ℕ → ℕ → Db → Result ℕ × Db
  enforce_vendors now retention db =
      commit db (anonymized now retention db)
        (count_if (vendor_expired now retention db.loans) db.vendors)

-- `get_retention_handler`: the handler's effect, if the category has one.
unfoldable pub enforce_category : (String → String) → ℕ → String → ℕ → Option (Db → Result ℕ × Db)
unfolding enforce_loans enforce_vendors
enforce_category sha256 now category retention =
    if category == "loan_application"
    then some (enforce_loans sha256 now retention)
    else if category == "vendor_contact"
    then some (enforce_vendors sha256 now retention)
    else none
