-- ===== src/Gateway/Backends.antt =====
-- The two backends behind `get_gateway_service` agree: the table refines the in-memory dicts.
use project_k_platform.Prelude.{
  ℕ, String, ◌≡◌, ◌≢◌, refl, Bool, true, false, Option, none, some, List, [], ◌∷◌, any, arith,
  eq_iff, Bool-cases, inl, inr, if◌then◌else◌, nat_beq_iff,
}
use project_k_platform.Prelude.Dict.{Dict, lookup, lookup-insert}
use project_k_platform.Prelude.Eq.{◌==◌, string_eq, nat_eq}
use project_k_platform.Prelude.Result.{ok}
use project_k_platform.Db.{LoanRow, update_where}
use project_k_platform.Gateway.Types.{LoanApplicationRequest}
use project_k_platform.Gateway.Memory.{
  Application, Service, Extra, real_key, find_key, initiate_by, create, index_key, update_found,
  found_status, new_application, advance,
}
use project_k_platform.Gateway.Memory
use project_k_platform.Gateway.Memory.{initiated_response}
use project_k_platform.Gateway.Table
use project_k_platform.Gateway.Table.{
  find_row, has_id, has_key, key_is, key_taken, new_row, find_existing, insert_row, initiate_over,
  numeric, row_fits,
}

-- What both backends store of an application.
pub record View : Type 0 where
  pub application_id : ℕ
  pub invoice_id : ℕ
  pub vendor_gstin : String
  pub anchor_gstin : String
  pub amount_requested : ℕ
  pub status : String
  pub current_gate : Option String
  pub workflow_id : Option String
  pub created_at : ℕ
  pub updated_at : ℕ
  pub amount_sanctioned : Option ℕ
  pub selected_lender_id : Option String
  pub offer_data : Option String

abbrev pub app_view : Option Application → Option View
app_view none = none
app_view (some a) = some (record {
  application_id = a.application_id;
  invoice_id = a.invoice_id;
  vendor_gstin = a.vendor_gstin;
  anchor_gstin = a.anchor_gstin;
  amount_requested = a.amount_requested;
  status = a.status;
  current_gate = some a.current_gate;
  workflow_id = some a.workflow_id;
  created_at = a.created_at;
  updated_at = a.updated_at;
  amount_sanctioned = a.amount_sanctioned;
  selected_lender_id = a.selected_lender_id;
  offer_data = a.offer_data;
})

abbrev pub row_view : Option LoanRow → Option View
row_view none = none
row_view (some r) = some (record {
  application_id = r.id;
  invoice_id = r.invoice_id;
  vendor_gstin = r.vendor_gstin;
  anchor_gstin = r.anchor_gstin;
  amount_requested = r.amount_requested;
  status = r.status;
  current_gate = r.current_gate;
  workflow_id = r.workflow_id;
  created_at = r.created_at;
  updated_at = r.updated_at;
  amount_sanctioned = r.amount_sanctioned;
  selected_lender_id = r.selected_lender_id;
  offer_data = r.offer_data;
})

abbrev pub row_id : Option LoanRow → Option ℕ
row_id none = none
row_id (some r) = some r.id

-- The dicts and the table hold the same applications, and the same application for each key.
pub record Same (s : Service) (rows : List LoanRow) : Type 0 where
  pub apps : (id : ℕ) → app_view (lookup id s.applications) ≡ row_view (find_row (has_id id) rows)
  pub keys :
      (k : String) → k ≢ "" → lookup k s.idempotency_index ≡ row_id (find_row (has_key k) rows)
  pub found :
      (k : String) (r : LoanRow)
      → find_row (has_key k) rows ≡ some r
      → find_row (has_id r.id) rows ≡ some r

any-find : (p : LoanRow → Bool) (rows : List LoanRow) → find_row p rows ≡ none → any p rows ≡ false
any-find p [] h = refl
any-find p (r ∷ rows) h = ground (arith, any-find p rows)

pub find_sound :
    (p : LoanRow → Bool) (rows : List LoanRow) (r : LoanRow) → find_row p rows ≡ some r → p r ≡ true
find_sound p [] r h = cc
find_sound p (x ∷ rows) r h = ground (arith, find_sound p rows r)

abbrev pub map_row : (LoanRow → LoanRow) → Option LoanRow → Option LoanRow
map_row f none = none
map_row f (some r) = some (f r)

abbrev pub when : (LoanRow → Bool) → (LoanRow → LoanRow) → LoanRow → LoanRow
when q f r = if q r then f r else r

-- A query that an update does not disturb finds the updated row.
pub find-update :
    (p q : LoanRow → Bool) (f : LoanRow → LoanRow) (rows : List LoanRow)
    → ((r : LoanRow) → p (f r) ≡ p r)
    → find_row p (update_where q f rows) ≡ map_row (when q f) (find_row p rows)
find-update p q f [] h = refl
find-update p q f (r ∷ rows) h = ground (arith, h r, find-update p q f rows h)

module _ (workflow_of : ℕ → String) (now app_id : ℕ) (request : LoanApplicationRequest) where
  new-key :
      (key : Option String) (index : Dict String ℕ) (rows : List LoanRow) (k : String)
      → key ≢ some ""
      → k ≢ ""
      → lookup k index ≡ row_id (find_row (has_key k) rows)
      → lookup k (index_key workflow_of (real_key key) app_id index)
        ≡ (if key_is k key then some app_id else row_id (find_row (has_key k) rows))
  new-key none index rows k real n h = h
  new-key (some j) index rows k real n h =
      ground (arith, lookup-insert j k app_id index, eq_iff j "", eq_iff j k)

  new-found :
      (rows : List LoanRow) (k : String) (r : LoanRow)
      → find_row (has_id app_id) rows ≡ none
      → (find_row (has_key k) rows ≡ some r → find_row (has_id r.id) rows ≡ some r)
      → find_row
          (has_key k)
          (new_row workflow_of now app_id request.amount_requested request ∷ rows)
        ≡ some r
      → find_row
          (has_id r.id)
          (new_row workflow_of now app_id request.amount_requested request ∷ rows)
        ≡ some r
  new-found rows k r fresh found h = elim (Bool-cases (key_is k request.idempotency_key)) [
    | inl e ↦
        let same : new_row workflow_of now app_id request.amount_requested request ≡ r =
          ground arith in
        rw (← same) (ground arith)
    | inr e ↦
        let old : find_row (has_id r.id) rows ≡ some r = found (ground arith) in
        elim (Bool-cases (app_id == r.id)) [
          | inl q ↦ let q' : app_id ≡ r.id = (nat_beq_iff app_id r.id).0 q in cc (fresh, old, q')
          | inr q ↦ rw q old
        ]
  ]

  -- A created application is the same in both.
  create-Same :
      (s : Service) (rows : List LoanRow)
      → Same s rows
      → request.idempotency_key ≢ some ""
      → find_row (has_id app_id) rows ≡ none
      → Same
          (create workflow_of now app_id request s).1
          (new_row workflow_of now app_id request.amount_requested request ∷ rows)
  create-Same s rows same real fresh = record {
    apps = λ id. ground (
      arith,
      lookup-insert app_id id (new_application workflow_of now app_id request) s.applications,
      same.apps id,
    );
    keys = λ k n.
        ground (
          arith,
          new-key request.idempotency_key s.idempotency_index rows k real n (same.keys k n),
        );
    found = λ k r h. new-found rows k r fresh (same.found k r) h;
  }

  key-free :
      (key : Option String) (rows : List LoanRow)
      → key ≢ some ""
      → find_existing workflow_of (real_key key) rows ≡ none
      → key_taken key rows ≡ false
  key-free none rows real h = refl
  key-free (some k) rows real h = any-find (has_key k) rows (ground (arith, eq_iff k ""))

  insert_row-fresh :
      (rows : List LoanRow)
      → numeric request.amount_requested ≡ some request.amount_requested
      → row_fits workflow_of app_id request ≡ true
      → request.idempotency_key ≢ some ""
      → find_existing workflow_of (real_key request.idempotency_key) rows ≡ none
      → find_row (has_id app_id) rows ≡ none
      → insert_row workflow_of now app_id request rows ≡ (
        ok (initiated_response workflow_of app_id request),
        new_row workflow_of now app_id request.amount_requested request ∷ rows,
      )
  insert_row-fresh rows exact held real free fresh =
      rw
        (
          exact,
          held,
          any-find (has_id app_id) rows fresh,
          key-free request.idempotency_key rows real free,
        )
        refl

  key-agrees :
      (key : Option String) (s : Service) (rows : List LoanRow)
      → Same s rows
      → find_key workflow_of (real_key key) s.idempotency_index
        ≡ row_id (find_existing workflow_of (real_key key) rows)
  key-agrees none s rows same = refl
  key-agrees (some k) s rows same = elim (Bool-cases (k == "")) [
    | inl e ↦ rw e
    | inr e ↦ rw e (same.keys k (λ q. ground (arith, eq_iff k "")))
  ]

  existing-found :
      (key : Option String) (s : Service) (rows : List LoanRow) (r : LoanRow)
      → Same s rows
      → find_existing workflow_of key rows ≡ some r
      → find_row (has_id r.id) rows ≡ some r
  existing-found none s rows r same h = cc
  existing-found (some k) s rows r same h = same.found k r h

  -- Both answer, and the states stay the same, by whether the key has an application.
  initiate-split :
      (o : Option LoanRow) (s : Service) (rows : List LoanRow)
      → Same s rows
      → numeric request.amount_requested ≡ some request.amount_requested
      → row_fits workflow_of app_id request ≡ true
      → request.idempotency_key ≢ some ""
      → find_row (has_id app_id) rows ≡ none
      → find_existing workflow_of (real_key request.idempotency_key) rows ≡ o
      → ((initiate_by workflow_of (row_id o) now app_id request s).0
          ≡ (initiate_over workflow_of o now app_id request rows).0)
        × Same
            (initiate_by workflow_of (row_id o) now app_id request s).1
            (initiate_over workflow_of o now app_id request rows).1
  initiate-split none s rows same exact held real fresh free =
      let e = insert_row-fresh rows exact held real free fresh in
      rw e (refl, create-Same s rows same real fresh)
  initiate-split (some r) s rows same exact held real fresh h = (
    ground
        (arith, same.apps r.id, existing-found (real_key request.idempotency_key) s rows r same h),
    same,
  )

pub lookup-none :
    (id : ℕ) (s : Service) (rows : List LoanRow)
    → Same s rows
    → lookup id s.applications ≡ none
    → find_row (has_id id) rows ≡ none
lookup-none id s rows same h = ground (arith, same.apps id)

-- A request for a new uuid gets the same response from both backends and leaves them the same, if its
-- amount has no more than two decimals and the columns of the table hold its amount and its texts,
-- and unless its idempotency key is the empty text.
pub initiate_application-backends :
    (workflow_of : ℕ → String) (now app_id : ℕ) (request : LoanApplicationRequest) (s : Service)
    (rows : List LoanRow)
    → Same s rows
    → numeric request.amount_requested ≡ some request.amount_requested
    → row_fits workflow_of app_id request ≡ true
    → request.idempotency_key ≢ some ""
    → lookup app_id s.applications ≡ none
    → let (r, s') = Memory.initiate_application workflow_of now app_id request s in
      let (r', rows') = Table.initiate_application workflow_of now app_id request rows in
      (r ≡ r') × Same s' rows'
unfolding Memory.initiate_application Table.initiate_application
initiate_application-backends workflow_of now app_id request s rows same exact held real fresh =
    rw (key-agrees workflow_of now app_id request request.idempotency_key s rows same) (
      initiate-split workflow_of now app_id request _ s rows same exact held real
        (lookup-none app_id s rows same fresh) refl)
