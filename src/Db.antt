-- ===== src/Db.antt =====
-- The platform's tables of libs/db/models.py as lists of rows, and the queries that the data source
-- and the retention handlers make of them. A time is a number of seconds. PostgreSQL is modelled by
-- what the code relies on: a query keeps the rows that fit, a commit checks the unique constraint on
-- `vendors.gstin` and rolls back if it fails, and `updated_at` is set on every update of a loan.
pub mod DataSource
pub mod Erasure
pub mod Retention
pub mod Retained
pub mod Reregistered
use project_k_platform.Prelude.{
  ℕ, ◌+◌, ◌*◌, String, Bool, true, false, not, ◌&&◌, ◌||◌, Option, none, some, List, [], ◌∷◌, map,
  any, keep, ltb, if◌then◌else◌,
}
use project_k_platform.Prelude.Eq.{◌==◌, string_eq, nat_eq}
use project_k_platform.Prelude.Result.{Error, integrity_error, other_error, Result, ok, err}

pub record LoanRow : Type 0 where
  pub id : ℕ
  pub invoice_id : ℕ
  pub vendor_gstin : String
  pub anchor_gstin : String
  pub amount_requested : ℕ
  pub status : String
  pub current_gate : Option String
  pub workflow_id : Option String
  pub idempotency_key : Option String
  pub selected_lender_id : Option String
  pub offer_data : Option String
  pub amount_sanctioned : Option ℕ
  pub created_at : ℕ
  pub updated_at : ℕ
  pub vendor_gstin_enc : Option String
  pub vendor_gstin_idx : Option String
  pub anchor_gstin_enc : Option String
  pub anchor_gstin_idx : Option String

pub record VendorRow : Type 0 where
  pub id : ℕ
  pub name : String
  pub gstin : String
  pub udyam_number : Option String
  pub onboarded_at : ℕ
  pub name_enc : Option String
  pub gstin_enc : Option String
  pub gstin_idx : Option String
  pub udyam_number_enc : Option String
  pub udyam_number_idx : Option String

pub record ConsentRow : Type 0 where
  pub id : ℕ
  pub data_principal_id : String
  pub purpose : String
  pub granted : Bool
  pub granted_at : Option ℕ

pub record Db : Type 0 where
  pub loans : List LoanRow
  pub vendors : List VendorRow
  pub consents : List ConsentRow

-- `timedelta(days=…)`
abbrev pub days : ℕ → ℕ
days d = d * 86400

-- `t > now - span` and `t < now - span`, with no subtraction.
abbrev pub is_within : ℕ → ℕ → ℕ → Bool
is_within now span t = ltb now (t + span)

abbrev pub is_older : ℕ → ℕ → ℕ → Bool
is_older now span t = ltb (t + span) now

-- `result.scalar_one_or_none()`
abbrev pub scalar_one_or_none : {A : Type 0} → List A → Result (Option A)
scalar_one_or_none [] = ok none
scalar_one_or_none (x ∷ []) = ok (some x)
scalar_one_or_none (x ∷ y ∷ xs) = err (other_error "MultipleResultsFound")

-- `UPDATE … WHERE …`
abbrev pub update_where : {A : Type 0} → (A → Bool) → (A → A) → List A → List A
update_where p f [] = []
update_where p f (x ∷ xs) = (if p x then f x else x) ∷ update_where p f xs

abbrev pub has_gstin : String → VendorRow → Bool
has_gstin g v = v.gstin == g

-- The unique constraint on `vendors.gstin`.
abbrev pub gstins_unique : List VendorRow → Bool
gstins_unique [] = true
gstins_unique (v ∷ vs) = not (any (has_gstin v.gstin) vs) && gstins_unique vs

-- A commit of `after` over `before`, with the result of the transaction.
abbrev pub commit : {A : Type 0} → Db → Db → A → Result A × Db
commit before after a =
    if gstins_unique after.vendors
    then (ok a, after)
    else (err (integrity_error "vendors_gstin_key"), before)
