-- ===== src/Migration/Batches.antt =====
-- The batches of migration 003 against one pass over the rows.
use project_k_platform.Prelude.{
  ℕ, zero, suc, ◌+◌, ◌≤◌, String, ◌≡◌, ◌≢◌, refl, ◌∙◌, ap, sym, List, [], ◌∷◌, ◌++◌, map, length,
  All, arith, ◌⊎◌, inl, inr, subst, if◌then◌else◌,
}
use mathlib.Core.List.{append_assoc}
use project_k_platform.Prelude.Eq.{◌==◌, string_eq, beq_refl, beq_ne}
use project_k_platform.Migration.{
  Row, Column, Update, Crypto, take, drop, set_columns, execute_update, updates_from, backfill_rows,
}

-- No two of the texts are equal.
abbrev pub AreDistinct : List String → Type 0
AreDistinct [] = Unit
AreDistinct (i ∷ is) = All (λ j. j ≢ i) is × AreDistinct is

pub All-at : (P : String → Type 0) (xs ys : List String) (i : String) → All P (xs ++ i ∷ ys) → P i
All-at P [] ys i h = h.0
All-at P (x ∷ xs) ys i h = All-at P xs ys i h.1

-- What differs before and after one of them.
pub around :
    (xs ys : List String) (i : String)
    → AreDistinct (xs ++ i ∷ ys)
    → All (λ j. j ≢ i) xs × All (λ j. j ≢ i) ys
around [] ys i h = (tt, h.0)
around (x ∷ xs) ys i h =
    let rest = around xs ys i h.1 in
    (((λ e. All-at (λ j. j ≢ x) xs ys i h.0 (sym e)), rest.0), rest.1)

module _ {Bytes : Type 0} where
  abbrev pub ids : List (Row Bytes) → List String
  ids = map (λ r. r.id)

  pub ids-append : (xs ys : List (Row Bytes)) → ids (xs ++ ys) ≡ ids xs ++ ids ys
  ids-append [] ys = refl
  ids-append (x ∷ xs) ys = ap (λ l. x.id ∷ l) (ids-append xs ys)

  pub set_columns-id : (us : List (Update Bytes)) (r : Row Bytes) → (set_columns us r).id ≡ r.id
  set_columns-id [] r = refl
  set_columns-id (u ∷ us) r = set_columns-id us _

  -- Rows with other ids stay.
  map-other :
      (f : Row Bytes → Row Bytes) (row_id : String) (d : List (Row Bytes))
      → All (λ j. j ≢ row_id) (ids d)
      → map (λ r. if r.id == row_id then f r else r) d ≡ d
  map-other f row_id [] h = refl
  map-other f row_id (r ∷ d) h = rw (beq_ne (h.0), map-other f row_id d h.1) refl

  -- One row of a table with distinct ids changes.
  map-at :
      (f : Row Bytes → Row Bytes) (d x : List (Row Bytes)) (r : Row Bytes)
      → All (λ j. j ≢ r.id) (ids d)
      → All (λ j. j ≢ r.id) (ids x)
      → map (λ q. if q.id == r.id then f q else q) (d ++ r ∷ x) ≡ d ++ f r ∷ x
  map-at f [] x r hd hx = rw (beq_refl r.id, map-other f r.id x hx) refl
  map-at f (q ∷ d) x r hd hx = rw (beq_ne (hd.0), map-at f d x r hd.1 hx) refl

  execute_update-at :
      (us : List (Update Bytes)) (d x : List (Row Bytes)) (r : Row Bytes)
      → AreDistinct (ids (d ++ r ∷ x))
      → execute_update us r.id (d ++ r ∷ x) ≡ d ++ set_columns us r ∷ x
  execute_update-at [] d x r h = refl
  execute_update-at (u ∷ us) d x r h =
      let apart = around (ids d) (ids x) r.id (subst AreDistinct (ids-append d (r ∷ x)) h) in
      map-at (set_columns (u ∷ us)) d x r apart.0 apart.1

  module _ (c : Crypto Bytes) (cols : List Column) where
    abbrev pub after_row : ℕ → Row Bytes → ℕ
    after_row n r = n + length (updates_from c n cols r.plain)

    -- The next nonce after a pass over rows, and the rows after it.
    abbrev pub after_rows : ℕ → List (Row Bytes) → ℕ
    after_rows n [] = n
    after_rows n (r ∷ rs) = after_rows (after_row n r) rs

    abbrev pub backfilled : ℕ → List (Row Bytes) → List (Row Bytes)
    backfilled n [] = []
    backfilled n (r ∷ rs) =
        set_columns (updates_from c n cols r.plain) r ∷ backfilled (after_row n r) rs

    pub backfilled-ids : (n : ℕ) (rs : List (Row Bytes)) → ids (backfilled n rs) ≡ ids rs
    backfilled-ids n [] = refl
    backfilled-ids n (r ∷ rs) =
        rw (set_columns-id (updates_from c n cols r.plain) r, backfilled-ids (after_row n r) rs)
          refl

    -- The loop over a batch b after the rows d and before the rows t.
    pub backfill_rows-between :
        (n : ℕ) (b d t : List (Row Bytes))
        → AreDistinct (ids (d ++ (b ++ t)))
        → backfill_rows c cols n b (d ++ (b ++ t)) ≡ (d ++ (backfilled n b ++ t), after_rows n b)
    backfill_rows-between n [] d t h = refl
    backfill_rows-between n (r ∷ b) d t h =
        let us = updates_from c n cols r.plain in
        let s = set_columns us r in
        let m = after_row n r in
        let moved = append_assoc d (s ∷ []) (b ++ t) in
        let same_ids =
          ap ids moved
          ∙ ids-append d (s ∷ (b ++ t))
          ∙ ap (λ i. ids d ++ i ∷ ids (b ++ t)) (set_columns-id us r)
          ∙ sym (ids-append d (r ∷ (b ++ t))) in
        ap (backfill_rows c cols m b) (execute_update-at us d (b ++ t) r h ∙ sym moved)
        ∙ backfill_rows-between m b (d ++ s ∷ []) t (subst AreDistinct (sym same_ids) h)
        ∙ ap (λ l. (l, after_rows m b)) (append_assoc d (s ∷ []) (backfilled m b ++ t))

    pub backfilled-append :
        (n : ℕ) (b t : List (Row Bytes))
        → backfilled n (b ++ t) ≡ backfilled n b ++ backfilled (after_rows n b) t
    backfilled-append n [] t = refl
    backfilled-append n (r ∷ b) t =
        ap (λ l. set_columns (updates_from c n cols r.plain) r ∷ l)
          (backfilled-append (after_row n r) b t)

    pub after_rows-append :
        (n : ℕ) (b t : List (Row Bytes)) → after_rows n (b ++ t) ≡ after_rows (after_rows n b) t
    after_rows-append n [] t = refl
    after_rows-append n (r ∷ b) t = after_rows-append (after_row n r) b t

    pub length-backfilled : (n : ℕ) (b : List (Row Bytes)) → length (backfilled n b) ≡ length b
    length-backfilled n [] = refl
    length-backfilled n (r ∷ b) = omega (arith, length-backfilled (after_row n r) b)

module _ {ℓ} {A : Type ℓ} where
  pub drop-beyond : (n : ℕ) (d : List A) → length d ≤ n → drop n (d ++ []) ≡ []
  drop-beyond zero [] h = refl
  drop-beyond zero (x ∷ d) h = absurd (omega (arith, h))
  drop-beyond (suc n) [] h = refl
  drop-beyond (suc n) (x ∷ d) h = drop-beyond n d (omega (arith, h))

  pub drop-length : (d rest : List A) → drop (length d) (d ++ rest) ≡ rest
  drop-length [] rest = refl
  drop-length (x ∷ d) rest = drop-length d rest

  pub take-drop : (n : ℕ) (l : List A) → take n l ++ drop n l ≡ l
  take-drop zero l = refl
  take-drop (suc n) [] = refl
  take-drop (suc n) (x ∷ l) = ap (λ k. x ∷ k) (take-drop n l)

  pub length-take : (n : ℕ) (l : List A) → length (take n l) ≤ n
  length-take zero l = omega arith
  length-take (suc n) [] = omega arith
  length-take (suc n) (x ∷ l) = omega (arith, length-take n l)

  pub length-drop : (n : ℕ) (l : List A) → length (drop n l) ≤ length l
  length-drop zero l = omega arith
  length-drop (suc n) [] = omega arith
  length-drop (suc n) (x ∷ l) = omega (arith, length-drop n l)

  -- A short batch is the last one.
  pub take-full : (n : ℕ) (l : List A) → (drop n l ≡ []) ⊎ (length (take n l) ≡ n)
  take-full zero l = inr refl
  take-full (suc n) [] = inl refl
  take-full (suc n) (x ∷ l) = elim (take-full n l) [
    | inl e ↦ inl e
    | inr e ↦ inr (omega (arith, e))
  ]
