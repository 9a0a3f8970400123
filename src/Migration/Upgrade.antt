-- ===== src/Migration/Upgrade.antt =====
-- `upgrade` and `downgrade` of migrations/versions/003_backfill_encrypted_columns.py.
use project_k_platform.Prelude.{
  ℕ, ◌<◌, ◌≡◌, refl, true, false, String, Option, none, some, All, Bool-cases, inl, inr, List, [],
  ◌∷◌, map, length, if◌then◌else◌,
}
use project_k_platform.Prelude.Eq.{◌==◌, string_eq, beq_refl, unequal}
use project_k_platform.Migration.{Row, Column, Crypto, set_column, backfill_table}
use project_k_platform.Migration.Batches.{AreDistinct, ids}
use project_k_platform.Migration.Encrypted.{names, AreFilled, backfill_table-AreFilled}

abbrev pub anchor_columns : List Column
anchor_columns =
    record { name = "name"; field_name = "anchor_name"; has_index = false }
    ∷ record { name = "gstin"; field_name = "anchor_gstin"; has_index = true }
    ∷ []

abbrev pub vendor_columns : List Column
vendor_columns =
    record { name = "name"; field_name = "vendor_name"; has_index = false }
    ∷ record { name = "gstin"; field_name = "vendor_gstin"; has_index = true }
    ∷ record { name = "udyam_number"; field_name = "vendor_udyam"; has_index = true }
    ∷ []

abbrev pub loan_columns : List Column
loan_columns =
    record { name = "vendor_gstin"; field_name = "loan_vendor_gstin"; has_index = true }
    ∷ record { name = "anchor_gstin"; field_name = "loan_anchor_gstin"; has_index = true }
    ∷ []

anchor_columns-AreDistinct : AreDistinct (names anchor_columns)
anchor_columns-AreDistinct = ((unequal "gstin" "name" refl, tt), (tt, tt))

vendor_columns-AreDistinct : AreDistinct (names vendor_columns)
vendor_columns-AreDistinct = (
  (unequal "gstin" "name" refl, (unequal "udyam_number" "name" refl, tt)),
  ((unequal "udyam_number" "gstin" refl, tt), (tt, tt)),
)

loan_columns-AreDistinct : AreDistinct (names loan_columns)
loan_columns-AreDistinct = ((unequal "anchor_gstin" "vendor_gstin" refl, tt), (tt, tt))

pub record Tables (Bytes : Type 0) : Type 0 where
  pub anchors : List (Row Bytes)
  pub vendors : List (Row Bytes)
  pub loan_applications : List (Row Bytes)

abbrev and_then {ℓ κ} : {A : Type ℓ} {B : Type κ} → Option A → (A → Option B) → Option B
and_then none f = none
and_then (some a) f = f a

module _ {Bytes : Type 0} where
  unfoldable pub upgrade : Crypto Bytes → ℕ → ℕ → Tables Bytes → Option (Tables Bytes)
  upgrade c fuel n db = and_then (backfill_table c fuel anchor_columns n db.anchors) (λ a.
      and_then (backfill_table c fuel vendor_columns a.1 db.vendors) (λ v.
        and_then (backfill_table c fuel loan_columns v.1 db.loan_applications)
          (λ l. some (record { anchors = a.0; vendors = v.0; loan_applications = l.0 }))))

  -- `SET <column>_enc = NULL`, and `<column>_idx = NULL` where there is one.
  abbrev pub clear_columns : List Column → Row Bytes → Row Bytes
  clear_columns [] r = r
  clear_columns (col ∷ cols) r = clear_columns cols (record {
    id = r.id;
    plain = r.plain;
    enc = set_column col.name none r.enc;
    idx = if col.has_index then set_column col.name none r.idx else r.idx;
  })

  unfoldable pub downgrade : Tables Bytes → Tables Bytes
  downgrade db = record {
    anchors = map (clear_columns anchor_columns) db.anchors;
    vendors = map (clear_columns vendor_columns) db.vendors;
    loan_applications = map (clear_columns loan_columns) db.loan_applications;
  }

  -- The migration returns, if the fuel exceeds the number of rows of each table and ids do not
  -- repeat; in all three tables every row keeps its id and plaintext, every column that is not null
  -- gets its value encrypted and, where it has one, its blind index, and a null column keeps what it
  -- had.
  pub upgrade-AreFilled :
      (c : Crypto Bytes) (fuel n : ℕ) (db : Tables Bytes)
      → length db.anchors < fuel
      → length db.vendors < fuel
      → length db.loan_applications < fuel
      → AreDistinct (ids db.anchors)
      → AreDistinct (ids db.vendors)
      → AreDistinct (ids db.loan_applications)
      → (after : Tables Bytes) × (upgrade c fuel n db ≡ some after)
        × AreFilled c anchor_columns db.anchors after.anchors
        × AreFilled c vendor_columns db.vendors after.vendors
        × AreFilled c loan_columns db.loan_applications after.loan_applications
  unfolding upgrade
  upgrade-AreFilled c fuel n db ha hv hl da dv dl =
      let a =
        backfill_table-AreFilled c fuel n anchor_columns db.anchors ha da
          anchor_columns-AreDistinct in
      let v =
        backfill_table-AreFilled c fuel a.1 vendor_columns db.vendors hv dv
          vendor_columns-AreDistinct in
      let l =
        backfill_table-AreFilled c fuel v.1 loan_columns db.loan_applications hl dl
          loan_columns-AreDistinct in
      (
        record { anchors = a.0; vendors = v.0; loan_applications = l.0 },
        rw (a.2, v.2, l.2) refl,
        a.3,
        v.3,
        l.3,
      )

module _ {Bytes : Type 0} where
  set_column-none :
      (name col : String) (f : String → Option Bytes)
      → f name ≡ none
      → set_column col none f name ≡ none
  set_column-none name col f h = elim (Bool-cases (name == col)) [
    | inl e ↦ rw e refl
    | inr e ↦ rw e h
  ]

  clear_columns-none :
      (cols : List Column) (r : Row Bytes) (name : String)
      → r.enc name ≡ none
      → (clear_columns cols r).enc name ≡ none
  clear_columns-none [] r name h = h
  clear_columns-none (col ∷ cols) r name h =
      clear_columns-none cols _ name (set_column-none name col.name r.enc h)

  -- No ciphertext of a listed column is left.
  abbrev AreCleared : List Column → Row Bytes → Type 0
  AreCleared cols r = All (λ col. r.enc col.name ≡ none) cols

  clear_columns-AreCleared :
      (cols : List Column) (r : Row Bytes) → AreCleared cols (clear_columns cols r)
  clear_columns-AreCleared [] r = tt
  clear_columns-AreCleared (col ∷ cols) r = (
    clear_columns-none cols _ col.name (rw (beq_refl col.name) refl),
    clear_columns-AreCleared cols _,
  )

  map-AreCleared :
      (cols : List Column) (t : List (Row Bytes))
      → All (AreCleared cols) (map (clear_columns cols) t)
  map-AreCleared cols [] = tt
  map-AreCleared cols (r ∷ t) = (clear_columns-AreCleared cols r, map-AreCleared cols t)

  -- The way back leaves no ciphertext in any of the three tables.
  downgrade-AreCleared :
      (db : Tables Bytes)
      → All (AreCleared anchor_columns) (downgrade db).anchors
        × All (AreCleared vendor_columns) (downgrade db).vendors
        × All (AreCleared loan_columns) (downgrade db).loan_applications
  unfolding downgrade
  downgrade-AreCleared db = (
    map-AreCleared anchor_columns db.anchors,
    map-AreCleared vendor_columns db.vendors,
    map-AreCleared loan_columns db.loan_applications,
  )
