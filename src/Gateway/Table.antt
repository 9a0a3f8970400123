-- ===== src/Gateway/Table.antt =====
-- AsyncDBGatewayService of services/borrower_gateway/service.py over the table `loan_applications`. A
-- query on a unique column gives one row at most; the order of rows is not modelled. A commit fails
-- on a value that its column cannot hold, and on a taken id or idempotency key.
use Prim.Native.String.{count}
use project_k_platform.Prelude.{
  ℕ, ◌+◌, ◌*◌, ◌/◌, String, Bool, true, false, not, ◌&&◌, ◌||◌, Option, none, some, List, [], ◌∷◌,
  any, ltb, leb, if◌then◌else◌,
}
use project_k_platform.Prelude.Eq.{Eq, ◌==◌, string_eq, nat_eq}
use project_k_platform.Prelude.Result.{key_error, integrity_error, other_error, Result, ok, err}
use project_k_platform.Db.{LoanRow, update_where}
use project_k_platform.Gateway.Types.{
  LoanApplicationRequest, LoanApplicationResponse, LoanApplicationStatus, existing_message,
}
use project_k_platform.Gateway.Memory.{Extra, real_key, initiated_response}

abbrev pub find_row : (LoanRow → Bool) → List LoanRow → Option LoanRow
find_row p [] = none
find_row p (r ∷ rs) = if p r then some r else find_row p rs

abbrev pub has_id : ℕ → LoanRow → Bool
has_id id r = r.id == id

-- SQL's `=` is not true of NULL.
abbrev pub key_is : String → Option String → Bool
key_is k none = false
key_is k (some j) = j == k

abbrev pub has_key : String → LoanRow → Bool
has_key k r = key_is k r.idempotency_key

abbrev pub key_taken : Option String → List LoanRow → Bool
key_taken none rows = false
key_taken (some k) rows = any (has_key k) rows

-- What a column NUMERIC(14, 2) keeps of an amount in millionths: it rounds to hundredths, and raises
-- from ten to the twelfth on.
abbrev pub numeric : ℕ → Option ℕ
numeric amount =
    let rounded : ℕ = (amount + 5000) / 10000 * 10000 in
    if ltb rounded 1000000000000000000 then some rounded else none

-- A text that a column VARCHAR(n) holds; longer ones raise, where only spaces exceed it too.
abbrev pub fits : ℕ → String → Bool
fits n s = leb (count s) n

abbrev pub fits_option : ℕ → Option String → Bool
fits_option n none = true
fits_option n (some s) = fits n s

module _ (workflow_of : ℕ → String) where
  abbrev pub row_fits : ℕ → LoanApplicationRequest → Bool
  row_fits app_id request =
      fits 15 request.vendor_gstin
      && (fits 15 request.anchor_gstin
          && (fits 100 (workflow_of app_id) && fits_option 128 request.idempotency_key))

  -- The row with the amount that its column keeps.
  abbrev pub new_row : ℕ → ℕ → ℕ → LoanApplicationRequest → LoanRow
  new_row now app_id amount request = record {
    id = app_id;
    invoice_id = request.invoice_id;
    vendor_gstin = request.vendor_gstin;
    anchor_gstin = request.anchor_gstin;
    amount_requested = amount;
    status = "initiated";
    current_gate = some "d0_kind1";
    workflow_id = some (workflow_of app_id);
    idempotency_key = request.idempotency_key;
    selected_lender_id = none;
    offer_data = none;
    amount_sanctioned = none;
    created_at = now;
    updated_at = now;
    vendor_gstin_enc = none;
    vendor_gstin_idx = none;
    anchor_gstin_enc = none;
    anchor_gstin_idx = none;
  }

  abbrev pub find_existing : Option String → List LoanRow → Option LoanRow
  find_existing none rows = none
  find_existing (some k) rows = find_row (has_key k) rows

  abbrev pub insert_unique :
      ℕ
      → ℕ
      → ℕ
      → LoanApplicationRequest
      → List LoanRow
      → Result LoanApplicationResponse × List LoanRow
  insert_unique now app_id amount request rows =
      if any (has_id app_id) rows || key_taken request.idempotency_key rows
      then (err (integrity_error "loan_applications"), rows)
      else (
        ok (initiated_response workflow_of app_id request),
        new_row now app_id amount request ∷ rows,
      )

  abbrev pub insert_kept :
      Option ℕ
      → ℕ
      → ℕ
      → LoanApplicationRequest
      → List LoanRow
      → Result LoanApplicationResponse × List LoanRow
  insert_kept none now app_id request rows = (err (other_error "DataError"), rows)
  insert_kept (some amount) now app_id request rows =
      if row_fits app_id request
      then insert_unique now app_id amount request rows
      else (err (other_error "DataError"), rows)

  abbrev pub insert_row :
      ℕ → ℕ → LoanApplicationRequest → List LoanRow → Result LoanApplicationResponse × List LoanRow
  insert_row now app_id request rows =
      insert_kept (numeric request.amount_requested) now app_id request rows

  abbrev pub initiate_over :
      Option LoanRow
      → ℕ
      → ℕ
      → LoanApplicationRequest
      → List LoanRow
      → Result LoanApplicationResponse × List LoanRow
  initiate_over (some r) now app_id request rows = (
    ok (record {
      application_id = r.id;
      invoice_id = r.invoice_id;
      status = r.status;
      workflow_id = r.workflow_id;
      message = existing_message;
    }),
    rows,
  )
  initiate_over none now app_id request rows = insert_row now app_id request rows

  unfoldable pub initiate_application :
      ℕ → ℕ → LoanApplicationRequest → List LoanRow → Result LoanApplicationResponse × List LoanRow
  initiate_application now app_id request rows =
      initiate_over (find_existing (real_key request.idempotency_key) rows) now app_id request rows

abbrev pub row_status : LoanRow → LoanApplicationStatus
row_status r = record {
  application_id = r.id;
  status = r.status;
  current_gate = r.current_gate;
  amount_requested = some r.amount_requested;
  amount_sanctioned = r.amount_sanctioned;
  lender_id = r.selected_lender_id;
  created_at = some r.created_at;
  updated_at = some r.updated_at;
}

abbrev pub found_row : Option LoanRow → Result LoanApplicationStatus
found_row none = err (key_error "Application not found")
found_row (some r) = ok (row_status r)

unfoldable pub get_status : ℕ → List LoanRow → Result LoanApplicationStatus
get_status id rows = found_row (find_row (has_id id) rows)

abbrev or_keep : {A : Type 0} → Option A → Option A → Option A
or_keep none old = old
or_keep (some a) old = some a

-- Of the extra arguments this backend stores three. `amount` is what the column keeps of the amount.
abbrev pub advance_row : Option ℕ → String → String → Extra → LoanRow → LoanRow
advance_row amount gate status extra r = record r {
  current_gate = some gate;
  status = status;
  amount_sanctioned = or_keep amount r.amount_sanctioned;
  selected_lender_id = or_keep extra.selected_lender_id r.selected_lender_id;
  offer_data = or_keep extra.offer_data r.offer_data;
}

-- An attribute that is set to another value.
abbrev pub sets {ℓ} : {A : Type ℓ} ⦃eq : Eq A⦄ → Option A → Option A → Bool
sets none old = false
sets (some a) none = true
sets (some a) (some b) = not (a == b)

-- SQLAlchemy writes a row, and `onupdate` sets its time, only if an attribute has another value.
abbrev pub has_changes : String → String → Extra → LoanRow → Bool
has_changes gate status extra r =
    sets (some gate) r.current_gate
    || (sets (some status) (some r.status)
        || (sets extra.amount_sanctioned r.amount_sanctioned
            || (sets extra.selected_lender_id r.selected_lender_id
                || sets extra.offer_data r.offer_data)))

-- What the column keeps of an amount that may not be given; none if it raises.
abbrev pub numeric_option : Option ℕ → Option (Option ℕ)
numeric_option none = some none
numeric_option (some amount) = elim (numeric amount) [ none ↦ none | some kept ↦ some (some kept) ]

abbrev pub write_kept :
    Option (Option ℕ)
    → ℕ
    → ℕ
    → String
    → String
    → Extra
    → List LoanRow
    → Result {0} Unit × List LoanRow
write_kept none now id gate status extra rows = (err (other_error "DataError"), rows)
write_kept (some amount) now id gate status extra rows =
    if fits 50 gate && (fits 50 status && fits_option 100 extra.selected_lender_id)
    then (
      ok tt,
      update_where (has_id id)
          (λ r. record (advance_row amount gate status extra r) { updated_at = now }) rows,
    )
    else (err (other_error "DataError"), rows)

abbrev pub update_row :
    Option LoanRow → ℕ → ℕ → String → String → Extra → List LoanRow → Result {0} Unit × List LoanRow
update_row none now id gate status extra rows = (err (key_error "Application not found"), rows)
update_row (some r) now id gate status extra rows =
    if has_changes gate status extra r
    then write_kept (numeric_option extra.amount_sanctioned) now id gate status extra rows
    else (ok tt, rows)

unfoldable pub update_gate :
    ℕ → ℕ → String → String → Extra → List LoanRow → Result {0} Unit × List LoanRow
update_gate now id gate status extra rows =
    update_row (find_row (has_id id) rows) now id gate status extra rows
