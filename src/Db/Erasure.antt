-- ===== src/Db/Erasure.antt =====
-- What an erasure leaves behind, and whom it touches.
use project_k_platform.Prelude.{
  ℕ, String, ◌≡◌, refl, ap, ◌≢◌, ◌↔◌, Bool, true, false, ◌⊎◌, ◌<◌, ◌+◌, Option, none, List, [], ◌∷◌,
  any, keep, arith, eq_iff, Bool-cases, inl, inr, if◌then◌else◌,
}
use project_k_platform.Prelude.Eq.{string_eq, beq_ne}
use project_k_platform.Prelude.Result.{Result, ok, err}
use project_k_platform.Db.{
  LoanRow, VendorRow, Db, update_where, has_gstin, scalar_one_or_none, gstins_unique, days,
}
use project_k_platform.Db.DataSource.{
  collect, erased, legal_hold_active, is_held, erase, erase_rows, erased_tables, has_legal_hold,
  of_vendor, of_principal, vendor_pseudonym, principal_pseudonym, pseudonymize_vendor,
  pseudonymize_loan, pseudonymize_consent,
}

-- Rows that the update moves away from a test are no longer found by it.
keep-update_gone :
    {A : Type 0} (p : A → Bool) (f : A → A) (xs : List A)
    → ((x : A) → p x ≡ true → p (f x) ≡ false)
    → keep p (update_where p f xs) ≡ []
keep-update_gone p f [] h = refl
keep-update_gone p f (x ∷ xs) h = ground (arith, h x, keep-update_gone p f xs h)

-- An update changes nothing of what another query shows, if it hits none of its rows before or after.
keep-update_other :
    {A : Type 0} (p q : A → Bool) (f : A → A) (xs : List A)
    → ((x : A) → p x ≡ true → q x ≡ false)
    → ((x : A) → p x ≡ true → q (f x) ≡ false)
    → keep q (update_where p f xs) ≡ keep q xs
keep-update_other p q f [] h k = refl
keep-update_other p q f (x ∷ xs) h k = ground (arith, h x, k x, keep-update_other p q f xs h k)

module _ (sha256 : String → String) (now : ℕ) (principal : String) where
  erase-eq-erased :
      (db : Db)
      → (erase sha256 now principal db).0 ≡ ok erased
      → (erase sha256 now principal db).1 ≡ erased_tables sha256 now principal db
  unfolding erase
  erase-eq-erased db h =
      split (has_legal_hold now principal db)
        (scalar_one_or_none (keep (has_gstin principal) db.vendors)) h
    where
      tables : Db
      tables = erased_tables sha256 now principal db

      split :
          (b : Bool) (v : Result (Option VendorRow))
          → (if b then (ok legal_hold_active, db) else erase_rows sha256 v now principal db).0
            ≡ ok erased
          → (if b then (ok legal_hold_active, db) else erase_rows sha256 v now principal db).1
            ≡ tables
      split true v h = cc
      split false (err e) h = cc
      split false (ok v) h = ground arith

  -- The loans, vendors and consents that name the principal no longer do.
  collect-erased_tables :
      (db : Db)
      → vendor_pseudonym sha256 principal ≢ principal
      → principal_pseudonym sha256 principal ≢ principal
      → collect principal (erased_tables sha256 now principal db)
        ≡ ok (record { vendor = none; loan_applications = []; consents = [] })
  unfolding collect
  collect-erased_tables db v p = rw (
    keep-update_gone (has_gstin principal) (pseudonymize_vendor sha256) db.vendors
        (λ x e. rw ((eq_iff _ _).0 e) (beq_ne v)),
    keep-update_gone (of_vendor principal) (pseudonymize_loan sha256 now) db.loans
        (λ x e. rw ((eq_iff _ _).0 e) (beq_ne v)),
    keep-update_gone (of_principal principal) (pseudonymize_consent sha256) db.consents
        (λ x e. rw ((eq_iff _ _).0 e) (beq_ne p)),
  )

-- After a successful erasure an access request of the same principal collects nothing: no vendor, no
-- loan and no consent, where the principal's id is not its own pseudonym.
pub erase-collect :
    (sha256 : String → String) (now : ℕ) (principal : String) (db : Db)
    → vendor_pseudonym sha256 principal ≢ principal
    → principal_pseudonym sha256 principal ≢ principal
    → (erase sha256 now principal db).0 ≡ ok erased
    → collect principal (erase sha256 now principal db).1
      ≡ ok (record { vendor = none; loan_applications = []; consents = [] })
erase-collect sha256 now principal db v p h =
    rw (erase-eq-erased sha256 now principal db h)
      (collect-erased_tables sha256 now principal db v p)

module _ (sha256 : String → String) (now : ℕ) (principal other : String) where
  collect-erased_tables_other :
      (db : Db)
      → principal ≢ other
      → vendor_pseudonym sha256 principal ≢ other
      → principal_pseudonym sha256 principal ≢ other
      → collect other (erased_tables sha256 now principal db) ≡ collect other db
  unfolding collect
  collect-erased_tables_other db n v p = rw (
    keep-update_other (has_gstin principal) (has_gstin other) (pseudonymize_vendor sha256)
        db.vendors (λ x e. rw ((eq_iff _ _).0 e) (beq_ne n))
        (λ x e. rw ((eq_iff _ _).0 e) (beq_ne v)),
    keep-update_other (of_vendor principal) (of_vendor other) (pseudonymize_loan sha256 now)
        db.loans (λ x e. rw ((eq_iff _ _).0 e) (beq_ne n))
        (λ x e. rw ((eq_iff _ _).0 e) (beq_ne v)),
    keep-update_other (of_principal principal) (of_principal other) (pseudonymize_consent sha256)
        db.consents (λ x e. rw ((eq_iff _ _).0 e) (beq_ne n))
        (λ x e. rw ((eq_iff _ _).0 e) (beq_ne p)),
  )

  collect-erase_rows :
      (v : Result (Option VendorRow)) (db : Db)
      → collect other (erased_tables sha256 now principal db) ≡ collect other db
      → collect other (erase_rows sha256 v now principal db).1 ≡ collect other db
  collect-erase_rows (err e) db h = refl
  collect-erase_rows (ok v) db h =
      elim (Bool-cases (gstins_unique (erased_tables sha256 now principal db).vendors)) [
        | inl q ↦ rw q h
        | inr q ↦ rw q
      ]

-- An erasure, however it ends, changes nothing of what an access request of another principal
-- collects, unless that other id is one of the two pseudonyms of the erased one.
pub erase-collect_other :
    (sha256 : String → String) (now : ℕ) (principal other : String) (db : Db)
    → principal ≢ other
    → vendor_pseudonym sha256 principal ≢ other
    → principal_pseudonym sha256 principal ≢ other
    → collect other (erase sha256 now principal db).1 ≡ collect other db
unfolding erase
erase-collect_other sha256 now principal other db n v p =
    elim (Bool-cases (has_legal_hold now principal db)) [
      | inl e ↦ rw e
      | inr e ↦ rw e (
          collect-erase_rows sha256 now principal other
            (scalar_one_or_none (keep (has_gstin principal) db.vendors)) db
            (collect-erased_tables_other sha256 now principal other db n v p))
    ]

-- A loan of the principal that was disbursed, is being repaid or is closed, and was created less than
-- 2555 days ago.
abbrev pub Holds : ℕ → String → LoanRow → Type 0
Holds now principal loan =
    (loan.vendor_gstin ≡ principal)
    × ((loan.status ≡ "disbursed") ⊎ ((loan.status ≡ "repaying") ⊎ (loan.status ≡ "closed")))
    × (now < loan.created_at + days 2555)

abbrev pub SomeHolds : ℕ → String → List LoanRow → Type 0
SomeHolds now principal [] = ⊥
SomeHolds now principal (l ∷ ls) = Holds now principal l ⊎ SomeHolds now principal ls

is_held-Holds :
    (now : ℕ) (principal : String) (loan : LoanRow)
    → (is_held now principal loan ≡ true) ↔ Holds now principal loan
is_held-Holds now principal loan = (
  λ h. ground (
    arith,
    eq_iff loan.vendor_gstin principal,
    eq_iff loan.status "disbursed",
    eq_iff loan.status "repaying",
    eq_iff loan.status "closed",
  ),
  λ h. ground (
    arith,
    eq_iff loan.vendor_gstin principal,
    eq_iff loan.status "disbursed",
    eq_iff loan.status "repaying",
    eq_iff loan.status "closed",
  ),
)

any-SomeHolds :
    (now : ℕ) (principal : String) (ls : List LoanRow)
    → any (is_held now principal) ls ≡ true
    → SomeHolds now principal ls
any-SomeHolds now principal [] h = cc
any-SomeHolds now principal (l ∷ ls) h = elim (Bool-cases (is_held now principal l)) [
  | inl e ↦ inl ((is_held-Holds now principal l).0 e)
  | inr e ↦ inr (any-SomeHolds now principal ls (rw e at h))
]

SomeHolds-any :
    (now : ℕ) (principal : String) (ls : List LoanRow)
    → SomeHolds now principal ls
    → any (is_held now principal) ls ≡ true
SomeHolds-any now principal [] h = absurd h
SomeHolds-any now principal (l ∷ ls) (inl h) = rw ((is_held-Holds now principal l).1 h) refl
SomeHolds-any now principal (l ∷ ls) (inr h) = elim (Bool-cases (is_held now principal l)) [
  | inl e ↦ rw e refl
  | inr e ↦ rw e (SomeHolds-any now principal ls h)
]

erase_rows-unheld :
    (sha256 : String → String) (v : Result (Option VendorRow)) (now : ℕ) (principal : String)
    (db : Db)
    → (erase_rows sha256 v now principal db).0 ≢ ok legal_hold_active
erase_rows-unheld sha256 (err e) now principal db h = cc
erase_rows-unheld sha256 (ok v) now principal db h =
    elim (Bool-cases (gstins_unique (erased_tables sha256 now principal db).vendors)) [
      | inl q ↦ ground arith
      | inr q ↦ ground arith
    ]

-- An erasure answers with a legal hold and changes no row exactly if some loan of the principal was
-- disbursed, is being repaid or is closed, and was created less than 2555 days ago.
pub erase-held :
    (sha256 : String → String) (now : ℕ) (principal : String) (db : Db)
    → (erase sha256 now principal db ≡ (ok legal_hold_active, db))
      ↔ SomeHolds now principal db.loans
unfolding erase has_legal_hold
erase-held sha256 now principal db = (forth, back)
  where
    forth :
        erase sha256 now principal db ≡ (ok legal_hold_active, db)
        → SomeHolds now principal db.loans
    forth h = elim (Bool-cases (has_legal_hold now principal db)) [
      | inl e ↦ any-SomeHolds now principal db.loans e
      | inr e ↦ absurd (
          erase_rows-unheld sha256 (scalar_one_or_none (keep (has_gstin principal) db.vendors)) now
            principal db (ap (λ p. p.0) (rw e at h)))
    ]

    back :
        SomeHolds now principal db.loans
        → erase sha256 now principal db ≡ (ok legal_hold_active, db)
    back h = let held = SomeHolds-any now principal db.loans h in rw held refl
