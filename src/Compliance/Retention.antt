-- ===== src/Compliance/Retention.antt =====
-- `enforce_retention` and RetentionEnforcementWorkflow, which passes its input and result on.
use project_k_platform.Prelude.{
  ℕ, String, ◌≡◌, refl, Bool, true, false, Option, none, some, List, [], ◌∷◌, map, arith,
  if◌then◌else◌, ap,
}
use project_k_platform.Prelude.Result.{Result, ok, err}
use project_k_platform.Db.{Db}
use project_k_platform.Db.Retention.{enforce_category}
use project_k_platform.Compliance.Rights.{OnDb}

pub record Policy : Type 0 where
  pub data_category : String
  pub retention_days : ℕ

pub record PolicyResult : Type 0 where
  pub category : String
  pub action : String
  pub records_affected : ℕ

abbrev pub report : Policy → String → ℕ → PolicyResult
report p action n = record { category = p.data_category; action = action; records_affected = n }

module _ (sha256 : String → String) (now : ℕ) where
  abbrev pub handled : Policy → Result ℕ × Db → Result PolicyResult × Db
  handled p (ok n, db) = (ok (report p "enforced" n), db)
  handled p (err e, db) = (err e, db)

  abbrev pub enforce_with : Policy → Option (Db → Result ℕ × Db) → OnDb PolicyResult
  enforce_with p none db = (ok (report p "no_handler" 0), db)
  enforce_with p (some h) db = handled p (h db)

  -- One round of the loop.
  unfoldable pub enforce_policy : Bool → Policy → OnDb PolicyResult
  enforce_policy dry_run p db =
      if dry_run
      then (ok (report p "dry_run" 0), db)
      else enforce_with p (enforce_category sha256 now p.data_category p.retention_days) db

  abbrev pub prepend :
      PolicyResult → Result (List PolicyResult) × Db → Result (List PolicyResult) × Db
  prepend r (ok rs, db) = (ok (r ∷ rs), db)
  prepend r (err e, db) = (err e, db)

  -- The rest of the loop after a round: an exception ends it, and what was committed stays.
  abbrev pub after_policy :
      (Db → Result (List PolicyResult) × Db)
      → Result PolicyResult × Db
      → Result (List PolicyResult) × Db
  after_policy rest (ok r, db) = prepend r (rest db)
  after_policy rest (err e, db) = (err e, db)

  unfoldable pub enforce_retention : Bool → List Policy → OnDb (List PolicyResult)
  unfolding enforce_policy
  enforce_retention dry_run [] db = (ok [], db)
  enforce_retention dry_run (p ∷ ps) db =
      after_policy (enforce_retention dry_run ps) (enforce_policy dry_run p db)

  handled-category :
      (p : Policy) (x : Result ℕ × Db) {r : PolicyResult}
      → (handled p x).0 ≡ ok r
      → r.category ≡ p.data_category
  handled-category p (ok n, db) e = ground arith
  handled-category p (err x, db) e = cc

  enforce_with-category :
      (p : Policy) (h : Option (Db → Result ℕ × Db)) (db : Db) {r : PolicyResult}
      → (enforce_with p h db).0 ≡ ok r
      → r.category ≡ p.data_category
  enforce_with-category p none db e = ground arith
  enforce_with-category p (some h) db e = handled-category p (h db) e

  enforce_policy-category :
      (dry_run : Bool) (p : Policy) (db : Db) {r : PolicyResult}
      → (enforce_policy dry_run p db).0 ≡ ok r
      → r.category ≡ p.data_category
  unfolding enforce_policy
  enforce_policy-category true p db e = ground arith
  enforce_policy-category false p db e =
      enforce_with-category p (enforce_category sha256 now p.data_category p.retention_days) db e

  prepend-eq-ok :
      (r : PolicyResult) (x : Result (List PolicyResult) × Db) {rs : List PolicyResult}
      → (prepend r x).0 ≡ ok rs
      → (ts : List PolicyResult) × (x.0 ≡ ok ts) × (r ∷ ts ≡ rs)
  prepend-eq-ok r (ok ts, db) e = (ts, refl, ground arith)
  prepend-eq-ok r (err x, db) e = cc

  after_policy-eq-ok :
      (rest : Db → Result (List PolicyResult) × Db) (x : Result PolicyResult × Db)
      {rs : List PolicyResult}
      → (after_policy rest x).0 ≡ ok rs
      → (r : PolicyResult) × (ts : List PolicyResult) × (x.0 ≡ ok r)
        × ((rest x.1).0 ≡ ok ts)
        × (r ∷ ts ≡ rs)
  after_policy-eq-ok rest (ok r, db) e =
      let (ts, p, q) = prepend-eq-ok r (rest db) e in (r, ts, refl, p, q)
  after_policy-eq-ok rest (err x, db) e = cc

-- A run that returns, dry or not, has one result for each policy of the configuration, in order.
pub enforce_retention-categories :
    (sha256 : String → String) (now : ℕ) (dry_run : Bool) (policies : List Policy) (db : Db)
    {rs : List PolicyResult}
    → (enforce_retention sha256 now dry_run policies db).0 ≡ ok rs
    → map (λ r. r.category) rs ≡ map (λ p. p.data_category) policies
unfolding enforce_retention
enforce_retention-categories sha256 now dry_run [] db h = ground arith
enforce_retention-categories sha256 now dry_run (p ∷ ps) db h =
    let (r, ts, a, b, c) =
      after_policy-eq-ok sha256 now (enforce_retention sha256 now dry_run ps)
        (enforce_policy sha256 now dry_run p db) h in
    cc (
      enforce_policy-category sha256 now dry_run p db a,
      enforce_retention-categories sha256 now dry_run ps (enforce_policy sha256 now dry_run p db).1
          b,
      ap (map (λ r. r.category)) c,
    )

-- A dry run reports every policy of the configuration once, in order, with no record affected, and
-- leaves the tables as they are.
pub enforce_retention-dry_run :
    (sha256 : String → String) (now : ℕ) (policies : List Policy) (db : Db)
    → enforce_retention sha256 now true policies db
      ≡ (ok (map (λ p. report p "dry_run" 0) policies), db)
unfolding enforce_retention
enforce_retention-dry_run sha256 now [] db = refl
enforce_retention-dry_run sha256 now (p ∷ ps) db = rw (enforce_retention-dry_run sha256 now ps db)
