-- ===== src/Migration.antt =====
-- migrations/versions/003_backfill_encrypted_columns.py: the batches that fill the encrypted columns.
-- AES-GCM, SHA-256, HMAC and the random numbers are parameters. A table is the list of its rows in
-- the order of their ids, so ORDER BY id keeps it; column names are given to functions.
pub mod Batches
mod Backfilled
pub mod Encrypted
pub mod Upgrade
use project_k_platform.Prelude.{
  ℕ, zero, suc, ◌+◌, String, Bool, true, false, Option, none, some, List, [], ◌∷◌, map, length,
  if◌then◌else◌,
}
use project_k_platform.Prelude.Eq.{◌==◌, string_eq}

-- A plaintext column, the name of its blind index, and whether it has one.
pub record Column : Type 0 where
  pub name : String
  pub field_name : String
  pub has_index : Bool

-- A row, with `<column>_enc` and `<column>_idx` under the name of the plaintext column.
pub record Row (Bytes : Type 0) : Type 0 where
  pub id : String
  pub plain : String → Option String
  pub enc : String → Option Bytes
  pub idx : String → Option String

-- What `updates` and `params` hold for one column.
pub record Update (Bytes : Type 0) : Type 0 where
  pub name : String
  pub enc : Bytes
  pub idx : Option String

-- The keys are those of the environment, both of which are set. `urandom n` is what the n-th call of `os.urandom(12)` gives; `encrypt` takes a key, a nonce and
-- the data, `hmac` a key and the data.
pub record Crypto (Bytes : Type 0) : Type 0 where
  pub version : Bytes
  pub encode : String → Bytes
  pub concat : Bytes → Bytes → Bytes
  pub urandom : ℕ → Bytes
  pub encrypt : Bytes → Bytes → Bytes → Bytes
  pub sha256 : Bytes → Bytes
  pub hmac : Bytes → Bytes → String
  pub encryption_key : Bytes
  pub index_key : Bytes

abbrev pub take {ℓ} : {A : Type ℓ} → ℕ → List A → List A
take zero xs = []
take (suc n) [] = []
take (suc n) (x ∷ xs) = x ∷ take n xs

abbrev pub drop {ℓ} : {A : Type ℓ} → ℕ → List A → List A
drop zero xs = xs
drop (suc n) [] = []
drop (suc n) (x ∷ xs) = drop n xs

-- `BATCH_SIZE`
abbrev pub batch_size : ℕ
batch_size = 1000

abbrev pub set_column {ℓ} : {A : Type ℓ} → String → A → (String → A) → String → A
set_column name a f other = if other == name then a else f other

-- An index that is not among the updates stays as it is.
abbrev pub set_index : String → Option String → (String → Option String) → String → Option String
set_index name none f = f
set_index name (some i) f = set_column name (some i) f

module _ {Bytes : Type 0} where
  abbrev pub set_columns : List (Update Bytes) → Row Bytes → Row Bytes
  set_columns [] r = r
  set_columns (u ∷ us) r = set_columns us (record {
    id = r.id;
    plain = r.plain;
    enc = set_column u.name (some u.enc) r.enc;
    idx = set_index u.name u.idx r.idx;
  })

  -- `UPDATE table SET ... WHERE id = :row_id`, if there is something to set.
  abbrev pub execute_update : List (Update Bytes) → String → List (Row Bytes) → List (Row Bytes)
  execute_update [] row_id t = t
  execute_update (u ∷ us) row_id t =
      map (λ r. if r.id == row_id then set_columns (u ∷ us) r else r) t

  -- `SELECT ... ORDER BY id LIMIT :limit OFFSET :offset`
  abbrev pub select : ℕ → ℕ → List (Row Bytes) → List (Row Bytes)
  select limit offset t = take limit (drop offset t)

  module _ (c : Crypto Bytes) where
    abbrev pub encrypt_value : ℕ → String → Bytes
    encrypt_value n plaintext =
        let nonce = c.urandom n in
        c.concat c.version (c.concat nonce (c.encrypt c.encryption_key nonce (c.encode plaintext)))

    abbrev pub compute_blind_index : String → String → String
    compute_blind_index value field_name =
        let domain_key = c.sha256 (c.concat c.index_key (c.encode field_name)) in
        c.hmac domain_key (c.encode value)

    abbrev pub update_of : ℕ → Column → String → Update Bytes
    update_of n col value = record {
      name = col.name;
      enc = encrypt_value n value;
      idx = if col.has_index then some (compute_blind_index value col.field_name) else none;
    }

    -- A column that is null has no update; `rest` is told the number of the next nonce.
    abbrev pub update_first :
        ℕ → Column → Option String → (ℕ → List (Update Bytes)) → List (Update Bytes)
    update_first n col none rest = rest n
    update_first n col (some value) rest = update_of n col value ∷ rest (suc n)

    -- The columns of a row that are not null, each with its own nonce from the n-th on.
    abbrev pub updates_from : ℕ → List Column → (String → Option String) → List (Update Bytes)
    updates_from n [] row = []
    updates_from n (col ∷ cols) row =
        update_first n col (row col.name) (λ m. updates_from m cols row)

    -- The loop over a batch: the table, and the number of the next nonce.
    abbrev pub backfill_rows :
        List Column → ℕ → List (Row Bytes) → List (Row Bytes) → List (Row Bytes) × ℕ
    backfill_rows cols n [] t = (t, n)
    backfill_rows cols n (r ∷ rows) t =
        let us = updates_from n cols r.plain in
        backfill_rows cols (n + length us) rows (execute_update us r.id t)

    -- The loop ends at an empty batch; `rest` runs on the table after the batch.
    abbrev pub after_select :
        List Column
        → ℕ
        → List (Row Bytes)
        → List (Row Bytes)
        → (ℕ → List (Row Bytes) → Option (List (Row Bytes) × ℕ))
        → Option (List (Row Bytes) × ℕ)
    after_select cols n [] t rest = some (t, n)
    after_select cols n (r ∷ rows) t rest =
        let (t', n') = backfill_rows cols n (r ∷ rows) t in rest n' t'

    -- The loop over the batches of a size, on fuel.
    abbrev pub backfill_from :
        ℕ → ℕ → ℕ → List Column → ℕ → List (Row Bytes) → Option (List (Row Bytes) × ℕ)
    backfill_from zero limit offset cols n t = none
    backfill_from (suc fuel) limit offset cols n t =
        after_select cols n (select limit offset t) t
          (backfill_from fuel limit (offset + limit) cols)

    unfoldable pub backfill_table :
        ℕ → List Column → ℕ → List (Row Bytes) → Option (List (Row Bytes) × ℕ)
    backfill_table fuel = backfill_from fuel batch_size 0
