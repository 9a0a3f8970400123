-- ===== src/Migration/Encrypted.antt =====
-- The columns of a row that a backfill of migration 003 fills, and those that it leaves.
use project_k_platform.Prelude.{
  ℕ, suc, ◌<◌, String, ◌≡◌, ◌≢◌, refl, ◌∙◌, sym, subst, Bool, true, false, Option, none, some, List,
  [], ◌∷◌, map, length, All, if◌then◌else◌,
}
use project_k_platform.Prelude.Eq.{string_eq, beq_refl, beq_ne}
use project_k_platform.Migration.{
  Row, Column, Update, Crypto, set_index, set_columns, update_of, updates_from, update_first,
  encrypt_value, compute_blind_index, backfill_table,
}
use project_k_platform.Migration.Batches.{
  AreDistinct, ids, backfilled, after_row, after_rows, set_columns-id,
}
use project_k_platform.Migration.Backfilled.{backfill_table-backfilled}

abbrev pub names : List Column → List String
names = map (λ col. col.name)

module _ {Bytes : Type 0} (c : Crypto Bytes) where
  -- The encrypted value and the index of a column before and after. A null column keeps both; any
  -- other is encrypted under some nonce, and a column without an index keeps what is there.
  abbrev pub IsFilled :
      Column → Option String → Option Bytes → Option String → Option Bytes → Option String → Type 0
  IsFilled col none e i e' i' = (e' ≡ e) × (i' ≡ i)
  IsFilled col (some v) e i e' i' =
      ((k : ℕ) × (e' ≡ some (encrypt_value c k v)))
      × (i' ≡ (if col.has_index then some (compute_blind_index c v col.field_name) else i))

  abbrev pub IsFilledIn : (String → Option String) → Row Bytes → Row Bytes → Column → Type 0
  IsFilledIn p r r' col =
      IsFilled col (p col.name) (r.enc col.name) (r.idx col.name) (r'.enc col.name)
        (r'.idx col.name)

  abbrev pub AreNotOf : String → List (Update Bytes) → Type 0
  AreNotOf name = All (λ u. name ≢ u.name)

  set_index-other :
      (i : Option String) (name other : String) (f : String → Option String)
      → other ≢ name
      → set_index name i f other ≡ f other
  set_index-other none name other f h = refl
  set_index-other (some i) name other f h = rw (beq_ne h) refl

  set_columns-other :
      (us : List (Update Bytes)) (r : Row Bytes) (name : String)
      → AreNotOf name us
      → ((set_columns us r).enc name ≡ r.enc name) × ((set_columns us r).idx name ≡ r.idx name)
  set_columns-other [] r name h = (refl, refl)
  set_columns-other (u ∷ us) r name h =
      let rest = set_columns-other us _ name h.1 in
      (rest.0 ∙ rw (beq_ne (h.0)) refl, rest.1 ∙ set_index-other u.idx u.name name r.idx h.0)

  set_columns-plain :
      (us : List (Update Bytes)) (r : Row Bytes) → (set_columns us r).plain ≡ r.plain
  set_columns-plain [] r = refl
  set_columns-plain (u ∷ us) r = set_columns-plain us _

  update_first-AreNotOf :
      (n : ℕ) (col : Column) (v : Option String) (rest : ℕ → List (Update Bytes)) (name : String)
      → col.name ≢ name
      → ((m : ℕ) → AreNotOf name (rest m))
      → AreNotOf name (update_first c n col v rest)
  update_first-AreNotOf n col none rest name h h' = h' n
  update_first-AreNotOf n col (some v) rest name h h' = ((λ e. h (sym e)), h' (suc n))

  updates_from-AreNotOf :
      (n : ℕ) (cols : List Column) (p : String → Option String) (name : String)
      → All (λ j. j ≢ name) (names cols)
      → AreNotOf name (updates_from c n cols p)
  updates_from-AreNotOf n [] p name h = tt
  updates_from-AreNotOf n (col ∷ cols) p name h =
      update_first-AreNotOf n col (p col.name) _ name h.0
        (λ m. updates_from-AreNotOf m cols p name h.1)

  -- An update of another column first makes no difference.
  IsFilledIn-other :
      (u : Update Bytes) (p : String → Option String) (r r' : Row Bytes) (cols : List Column)
      → All (λ j. j ≢ u.name) (names cols)
      → All (IsFilledIn p (set_columns (u ∷ []) r) r') cols
      → All (IsFilledIn p r r') cols
  IsFilledIn-other u p r r' [] h f = tt
  IsFilledIn-other u p r r' (col ∷ cols) h f =
      let stays = set_columns-other (u ∷ []) r col.name (h.0, tt) in
      (
        subst
            (λ e. IsFilled col (p col.name) e (r.idx col.name) (r'.enc col.name) (r'.idx col.name))
            stays.0
            (subst
              (λ i.
                IsFilled col (p col.name) ((set_columns (u ∷ []) r).enc col.name) i
                  (r'.enc col.name) (r'.idx col.name))
              stays.1 f.0),
        IsFilledIn-other u p r r' cols h.1 f.1,
      )

  set_index_self :
      (has : Bool) (i name : String) (f : String → Option String)
      → set_index name (if has then some i else none) f name ≡ (if has then some i else f name)
  set_index_self true i name f = rw (beq_refl name) refl
  set_index_self false i name f = refl

  -- The first column of several, and the others.
  update_first-IsFilledIn :
      (v : Option String) (col : Column) (cols : List Column) (n : ℕ) (r : Row Bytes)
      (p : String → Option String)
      → p col.name ≡ v
      → All (λ j. j ≢ col.name) (names cols)
      → ((m : ℕ) (q : Row Bytes)
          → All (IsFilledIn p q (set_columns (updates_from c m cols p) q)) cols)
      → All
          (IsFilledIn p r (set_columns (update_first c n col v (λ m. updates_from c m cols p)) r))
          (col ∷ cols)
  update_first-IsFilledIn none col cols n r p e h rest =
      let stays =
        set_columns-other (updates_from c n cols p) r col.name
          (updates_from-AreNotOf n cols p col.name h) in
      (rw e stays, rest n r)
  update_first-IsFilledIn (some v) col cols n r p e h rest =
      let u = update_of c n col v in
      let q = set_columns (u ∷ []) r in
      let us = updates_from c (suc n) cols p in
      let stays =
        set_columns-other us q col.name (updates_from-AreNotOf (suc n) cols p col.name h) in
      (
        rw e (
          (n, stays.0 ∙ rw (beq_refl col.name) refl),
          stays.1 ∙ set_index_self col.has_index _ col.name r.idx,
        ),
        IsFilledIn-other u p r (set_columns us q) cols h (rest (suc n) q),
      )

  updates_from-IsFilledIn :
      (n : ℕ) (cols : List Column) (r : Row Bytes) (p : String → Option String)
      → AreDistinct (names cols)
      → All (IsFilledIn p r (set_columns (updates_from c n cols p) r)) cols
  updates_from-IsFilledIn n [] r p h = tt
  updates_from-IsFilledIn n (col ∷ cols) r p h =
      update_first-IsFilledIn (p col.name) col cols n r p refl h.0
        (λ m q. updates_from-IsFilledIn m cols q p h.1)

  -- Row by row: the id and the plaintext stay, and each column is filled.
  abbrev pub AreFilled : List Column → List (Row Bytes) → List (Row Bytes) → Type 0
  AreFilled cols [] [] = Unit
  AreFilled cols [] (r' ∷ t') = ⊥
  AreFilled cols (r ∷ t) [] = ⊥
  AreFilled cols (r ∷ t) (r' ∷ t') =
      ((r'.id ≡ r.id) × (r'.plain ≡ r.plain) × All (IsFilledIn r.plain r r') cols)
      × AreFilled cols t t'

  backfilled-AreFilled :
      (cols : List Column) (n : ℕ) (t : List (Row Bytes))
      → AreDistinct (names cols)
      → AreFilled cols t (backfilled c cols n t)
  backfilled-AreFilled cols n [] h = tt
  backfilled-AreFilled cols n (r ∷ t) h =
      let us = updates_from c n cols r.plain in
      (
        (set_columns-id us r, set_columns-plain us r, updates_from-IsFilledIn n cols r r.plain h),
        backfilled-AreFilled cols (after_row c cols n r) t h,
      )

  -- With distinct ids and columns, and more fuel than rows, the backfill of a table returns; every
  -- row keeps its id and its plaintext, every column that is not null gets its value encrypted and,
  -- where it has one, its blind index, and a null column keeps what it had.
  pub backfill_table-AreFilled :
      (fuel n : ℕ) (cols : List Column) (t : List (Row Bytes))
      → length t < fuel
      → AreDistinct (ids t)
      → AreDistinct (names cols)
      → (t' : List (Row Bytes)) × (n' : ℕ) × (backfill_table c fuel cols n t ≡ some (t', n'))
        × AreFilled cols t t'
  backfill_table-AreFilled fuel n cols t h h' names_differ = (
    backfilled c cols n t,
    after_rows c cols n t,
    backfill_table-backfilled c cols fuel n t h h',
    backfilled-AreFilled cols n t names_differ,
  )
