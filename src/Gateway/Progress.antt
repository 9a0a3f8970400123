-- ===== src/Gateway/Progress.antt =====
-- `update_gate` on the two backends of the gateway.
use project_k_platform.Prelude.{
  ℕ, String, ◌≡◌, refl, sym, ap, ◌∙◌, Bool, true, false, not, ◌&&◌, ◌||◌, Option, none, some, List,
  arith, Option-cases, Bool-cases, inl, inr, nat_beq_iff,
}
use project_k_platform.Prelude.Dict.{lookup, insert, lookup-insert}
use project_k_platform.Prelude.Eq.{◌==◌, string_eq, nat_eq}
use project_k_platform.Db.{LoanRow, update_where}
use project_k_platform.Gateway.Memory.{
  Application, Service, Extra, nothing_overwritten, advance, update_found,
}
use project_k_platform.Gateway.Memory
use project_k_platform.Gateway.Table
use project_k_platform.Gateway.Table.{
  find_row, has_id, has_key, fits, fits_option, numeric_option, advance_row, has_changes,
  write_kept, update_row, sets,
}
use project_k_platform.Gateway.Backends.{
  Same, app_view, row_view, row_id, find_sound, map_row, when, find-update, lookup-none,
}

-- The gate or the status is another than the application's, if there is one.
abbrev pub advances : String → String → Option Application → Bool
advances gate status none = true
advances gate status (some a) = not (gate == a.current_gate) || not (status == a.status)

-- The columns of the table hold what `update_gate` writes, the amount exactly.
abbrev pub update_fits : String → String → Extra → Bool
update_fits gate status extra =
    fits 50 gate && (fits 50 status && fits_option 100 extra.selected_lender_id)

module _ (now id : ℕ) (gate status : String) (extra : Extra) where
  abbrev advanced : LoanRow → LoanRow
  advanced r = record (advance_row extra.amount_sanctioned gate status extra r) { updated_at = now }

  abbrev step : Application → Application
  step a = advance now gate status nothing_overwritten extra a

  view-advanced :
      (a : Application) (r : LoanRow)
      → app_view (some a) ≡ row_view (some r)
      → app_view (some (step a)) ≡ row_view (some (advanced r))
  view-advanced a r h = ground arith

  changes-of :
      (a : Application) (r : LoanRow)
      → app_view (some a) ≡ row_view (some r)
      → advances gate status (some a) ≡ true
      → has_changes gate status extra r ≡ true
  changes-of a r h q = ground arith

  -- A row with another id stays.
  view-other :
      (j : ℕ) (o : Option LoanRow) (rows : List LoanRow)
      → (id == j) ≡ false
      → find_row (has_id j) rows ≡ o
      → row_view (map_row (when (has_id id) advanced) o) ≡ row_view o
  view-other j none rows d e = refl
  view-other j (some y) rows d e =
      let at : y.id ≡ j = (nat_beq_iff y.id j).0 (find_sound (has_id j) rows y e) in
      let differs : (y.id == id) ≡ false = ground (arith, at, d, nat_beq_iff id j) in
      rw differs refl

  apps-updated :
      (s : Service) (rows : List LoanRow) (a : Application) (r : LoanRow)
      → Same s rows
      → lookup id s.applications ≡ some a
      → find_row (has_id id) rows ≡ some r
      → (j : ℕ)
      → app_view (lookup j (insert id (step a) s.applications))
        ≡ row_view (map_row (when (has_id id) advanced) (find_row (has_id j) rows))
  apps-updated s rows a r same h e j =
      rw (lookup-insert id j (step a) s.applications) (elim (Bool-cases (id == j)) [
        | inl d ↦
            let at : id ≡ j = (nat_beq_iff id j).0 d in
            rw (d, ← at, e, find_sound (has_id id) rows r e)
              (view-advanced a r (ap app_view (sym h) ∙ same.apps id ∙ ap row_view e))
        | inr d ↦ rw d (same.apps j ∙ sym (view-other j (find_row (has_id j) rows) rows d refl))
      ])

  keys-updated :
      (s : Service) (o : Option LoanRow) (k : String)
      → lookup k s.idempotency_index ≡ row_id o
      → lookup k s.idempotency_index ≡ row_id (map_row (when (has_id id) advanced) o)
  keys-updated s none k h = h
  keys-updated s (some r) k h = ground (arith, h)

  found-updated :
      (s : Service) (rows : List LoanRow) (o : Option LoanRow) (k : String) (r : LoanRow)
      → Same s rows
      → find_row (has_key k) rows ≡ o
      → map_row (when (has_id id) advanced) o ≡ some r
      → find_row (has_id r.id) (update_where (has_id id) advanced rows) ≡ some r
  found-updated s rows none k r same e q = cc
  found-updated s rows (some x) k r same e q =
      let i : r.id ≡ x.id = ground arith in
      rw (find-update (has_id r.id) (has_id id) advanced rows (λ y. refl)) (
        ap (map_row (when (has_id id) advanced))
          (ap (λ n. find_row (has_id n) rows) i ∙ same.found k x e)
        ∙ q)

  update-Same :
      (s : Service) (rows : List LoanRow) (a : Application) (r : LoanRow)
      → Same s rows
      → lookup id s.applications ≡ some a
      → find_row (has_id id) rows ≡ some r
      → Same
          (update_found (some a) now id gate status nothing_overwritten extra s).1
          (update_where (has_id id) advanced rows)
  update-Same s rows a r same h e = record {
    apps = λ j.
        rw (find-update (has_id j) (has_id id) advanced rows (λ y. refl))
          (apps-updated s rows a r same h e j);
    keys = λ k n.
        rw (find-update (has_key k) (has_id id) advanced rows (λ y. refl))
          (keys-updated s (find_row (has_key k) rows) k (same.keys k n));
    found = λ k x q.
        found-updated s rows (find_row (has_key k) rows) k x same refl
          (sym (find-update (has_key k) (has_id id) advanced rows (λ y. refl)) ∙ q);
  }

  update-split :
      (s : Service) (rows : List LoanRow) (a : Application) (o : Option LoanRow)
      → Same s rows
      → update_fits gate status extra ≡ true
      → numeric_option extra.amount_sanctioned ≡ some extra.amount_sanctioned
      → advances gate status (some a) ≡ true
      → lookup id s.applications ≡ some a
      → find_row (has_id id) rows ≡ o
      → ((update_found (some a) now id gate status nothing_overwritten extra s).0
          ≡ (update_row o now id gate status extra rows).0)
        × Same
            (update_found (some a) now id gate status nothing_overwritten extra s).1
            (update_row o now id gate status extra rows).1
  update-split s rows a none same held exact moves h e = ground (arith, same.apps id)
  update-split s rows a (some r) same held exact moves h e =
      let changed = changes-of a r (ap app_view (sym h) ∙ same.apps id ∙ ap row_view e) moves in
      rw (changed, exact, held) (refl, update-Same s rows a r same h e)

-- `update_gate` answers alike on both backends, an unknown application included, and leaves them the
-- same, if it changes the gate or the status, overwrites nothing else that a new application has, and
-- the columns of the table hold what it writes, an amount with no more than two decimals.
pub update_gate-backends :
    (now id : ℕ) (gate status : String) (extra : Extra) (s : Service) (rows : List LoanRow)
    → Same s rows
    → update_fits gate status extra ≡ true
    → numeric_option extra.amount_sanctioned ≡ some extra.amount_sanctioned
    → advances gate status (lookup id s.applications) ≡ true
    → let (r, s') = Memory.update_gate now id gate status nothing_overwritten extra s in
      let (r', rows') = Table.update_gate now id gate status extra rows in (r ≡ r') × Same s' rows'
unfolding Memory.update_gate Table.update_gate
update_gate-backends now id gate status extra s rows same held exact moves =
    elim (Option-cases (lookup id s.applications)) [
      | inl e ↦ rw (e, lookup-none id s rows same e) (refl, same)
      | inr (a, e) ↦
          let moved = ap (advances gate status) (sym e) ∙ moves in
          rw e (update-split now id gate status extra s rows a _ same held exact moved e refl)
    ]
