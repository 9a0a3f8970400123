-- ===== src/Db/Reregistered.antt =====
-- Erasure of a vendor who registered again after an earlier erasure.
use project_k_platform.Prelude.{
  ℕ, ◌+◌, ◌≤◌, ◌<◌, String, ◌≡◌, ◌≢◌, refl, Bool, true, false, Option, List, [], ◌∷◌, any, keep,
  count_if, arith, eq_iff, Bool-cases, inl, inr,
}
use project_k_platform.Prelude.Eq.{string_eq}
use project_k_platform.Prelude.Result.{Result, ok, err}
use project_k_platform.Db.{
  VendorRow, Db, update_where, has_gstin, gstins_unique, scalar_one_or_none,
}
use project_k_platform.Db.DataSource.{
  erased, erase, erase_rows, erased_tables, has_legal_hold, vendor_pseudonym, pseudonymize_vendor,
}

any→count : {A : Type 0} (p : A → Bool) (xs : List A) → any p xs ≡ true → 0 < count_if p xs
any→count p [] h = cc
any→count p (x ∷ xs) h = ground (arith, any→count p xs)

none→count : {A : Type 0} (p : A → Bool) (xs : List A) → any p xs ≡ false → count_if p xs ≡ 0
none→count p [] h = refl
none→count p (x ∷ xs) h = ground (arith, none→count p xs)

-- Under the unique constraint a GSTIN stands in one row at most.
count_unique :
    (g : String) (vs : List VendorRow) → gstins_unique vs ≡ true → count_if (has_gstin g) vs ≤ 1
count_unique g [] h = omega arith
count_unique g (v ∷ vs) h =
    ground (arith, count_unique g vs, eq_iff v.gstin g, none→count (has_gstin g) vs)

count-pseudonymized :
    (sha256 : String → String) (principal : String) (vs : List VendorRow)
    → vendor_pseudonym sha256 principal ≢ principal
    → count_if
        (has_gstin (vendor_pseudonym sha256 principal))
        (update_where (has_gstin principal) (pseudonymize_vendor sha256) vs)
      ≡ count_if (has_gstin (vendor_pseudonym sha256 principal)) vs
        + count_if (has_gstin principal) vs
count-pseudonymized sha256 principal [] n = refl
count-pseudonymized sha256 principal (v ∷ vs) n = ground (
  arith,
  count-pseudonymized sha256 principal vs n,
  eq_iff v.gstin principal,
  eq_iff v.gstin (vendor_pseudonym sha256 principal),
  eq_iff (vendor_pseudonym sha256 v.gstin) (vendor_pseudonym sha256 principal),
)

module _ (sha256 : String → String) (now : ℕ) (principal : String) (db : Db) where
  not_unique :
      any (has_gstin principal) db.vendors ≡ true
      → any (has_gstin (vendor_pseudonym sha256 principal)) db.vendors ≡ true
      → vendor_pseudonym sha256 principal ≢ principal
      → gstins_unique (erased_tables sha256 now principal db).vendors ≡ false
  not_unique a b n =
      let vs = (erased_tables sha256 now principal db).vendors in
      elim (Bool-cases (gstins_unique vs)) [
        | inr q ↦ q
        | inl q ↦ absurd (
            omega (
              arith,
              count_unique (vendor_pseudonym sha256 principal) vs q,
              count-pseudonymized sha256 principal db.vendors n,
              any→count (has_gstin principal) db.vendors a,
              any→count (has_gstin (vendor_pseudonym sha256 principal)) db.vendors b,
            ))
      ]

  refused-rows :
      (v : Result (Option VendorRow))
      → gstins_unique (erased_tables sha256 now principal db).vendors ≡ false
      → ((erase_rows sha256 v now principal db).0 ≢ ok erased)
        × ((erase_rows sha256 v now principal db).1 ≡ db)
  refused-rows (err e) q = ((λ h. cc), refl)
  refused-rows (ok v) q = rw q ((λ h. cc), refl)

-- If a vendor row has the principal's GSTIN and another has the pseudonym that an erasure would give
-- it (the trace of an earlier erasure of the same GSTIN), then with no legal hold the erasure fails
-- and changes no row: the principal, registered again, cannot be erased again.
pub erase-reregistered :
    (sha256 : String → String) (now : ℕ) (principal : String) (db : Db)
    → has_legal_hold now principal db ≡ false
    → any (has_gstin principal) db.vendors ≡ true
    → any (has_gstin (vendor_pseudonym sha256 principal)) db.vendors ≡ true
    → vendor_pseudonym sha256 principal ≢ principal
    → ((erase sha256 now principal db).0 ≢ ok erased) × ((erase sha256 now principal db).1 ≡ db)
unfolding erase
erase-reregistered sha256 now principal db e a b n = rw e (
    refused-rows sha256 now principal db
      (scalar_one_or_none (keep (has_gstin principal) db.vendors))
      (not_unique sha256 now principal db a b n))
