-- ===== src/Db/Retained.antt =====
-- What retention enforcement leaves: nothing more to do, and what it must not touch.
use text.Mathlib.Text.{starts_with}
use text.Mathlib.TextPositions.{starts_with-append}
use Prim.Native.String.{slice}
use project_k_platform.Prelude.{
  ℕ, String, ◌≡◌, refl, Bool, true, false, not, ◌&&◌, none, List, [], ◌∷◌, count_if, arith,
  Bool-cases, inl, inr, All,
}
use project_k_platform.Prelude.Eq.{string_eq}
use project_k_platform.Prelude.Result.{ok}
use project_k_platform.Db.{LoanRow, VendorRow, Db, days, is_older, update_where, gstins_unique}
use project_k_platform.Db.DataSource.{vendor_pseudonym, pseudonymize_vendor}
use project_k_platform.Db.Retention.{
  is_pseudonym, vendor_expired, has_active_loan, is_active, enforce_vendors, anonymized,
}

vendor_pseudonym-IsPseudonym :
    (sha256 : String → String) (g : String) → is_pseudonym (vendor_pseudonym sha256 g) ≡ true
vendor_pseudonym-IsPseudonym sha256 g = starts_with-append "V-" (slice (sha256 g) 0 13)

count-update_gone :
    {A : Type 0} (p q : A → Bool) (f : A → A) (xs : List A)
    → ((x : A) → q (f x) ≡ false)
    → ((x : A) → q x ≡ true → p x ≡ true)
    → count_if q (update_where p f xs) ≡ 0
count-update_gone p q f [] h k = refl
count-update_gone p q f (x ∷ xs) h k = ground (arith, h x, k x, count-update_gone p q f xs h k)

update-none :
    {A : Type 0} (q : A → Bool) (f : A → A) (xs : List A)
    → count_if q xs ≡ 0
    → update_where q f xs ≡ xs
update-none q f [] h = refl
update-none q f (x ∷ xs) h = ground (arith, update-none q f xs)

module _ (sha256 : String → String) (now retention : ℕ) where
  vendor_expired-pseudonymized :
      (loans : List LoanRow) (v : VendorRow)
      → vendor_expired now retention loans (pseudonymize_vendor sha256 v) ≡ false
  vendor_expired-pseudonymized loans v = ground (arith, vendor_pseudonym-IsPseudonym sha256 v.gstin)

-- A loan before and after, by whether it is to be pseudonymised.
abbrev pub IsRetained : Bool → LoanRow → LoanRow → Type 0
IsRetained false l l' = l' ≡ l
IsRetained true l l' =
    (is_pseudonym l'.vendor_gstin ≡ true)
    × (starts_with l'.anchor_gstin "A-" ≡ true)
    × (l'.vendor_gstin_enc ≡ none)
    × (l'.vendor_gstin_idx ≡ none)
    × (l'.anchor_gstin_enc ≡ none)
    × (l'.anchor_gstin_idx ≡ none)
    × (l'.id ≡ l.id)
    × (l'.status ≡ l.status)
    × (l'.amount_requested ≡ l.amount_requested)

abbrev pub AreRetained : (LoanRow → Bool) → List LoanRow → List LoanRow → Type 0
AreRetained p [] [] = Unit
AreRetained p [] (l' ∷ ls') = ⊥
AreRetained p (l ∷ ls) [] = ⊥
AreRetained p (l ∷ ls) (l' ∷ ls') = IsRetained (p l) l l' × AreRetained p ls ls'

-- If enforcing the vendor retention succeeds, then enforcing it again with the same clock and period
-- finds no vendor to anonymise and changes nothing.
pub enforce_vendors_idem :
    (sha256 : String → String) (now retention : ℕ) (db : Db) {n : ℕ}
    → (enforce_vendors sha256 now retention db).0 ≡ ok n
    → enforce_vendors sha256 now retention (enforce_vendors sha256 now retention db).1
      ≡ (ok 0, (enforce_vendors sha256 now retention db).1)
unfolding enforce_vendors
enforce_vendors_idem sha256 now retention db h =
    let p = vendor_expired now retention db.loans in
    let c =
      count-update_gone p p (pseudonymize_vendor sha256) db.vendors
        (vendor_expired-pseudonymized sha256 now retention db.loans) (λ x e. e) in
    elim (Bool-cases (gstins_unique (anonymized sha256 now retention db).vendors)) [
      | inr q ↦ ground arith
      | inl q ↦ rw (q, c, update-none p (pseudonymize_vendor sha256) _ c, q)
    ]

initiated-not-active : (s : String) → s ≡ "initiated" → is_active s ≡ false
initiated-not-active s h = rw h

has_active_loan-initiated :
    (loans : List LoanRow) (g : String)
    → All (λ l. l.status ≡ "initiated") loans
    → has_active_loan loans g ≡ false
has_active_loan-initiated [] g h = refl
has_active_loan-initiated (l ∷ loans) g h =
    ground (arith, has_active_loan-initiated loans g h.1, initiated-not-active l.status h.0)

-- Applications that are under way, in the status "initiated" that the gateway gives them, protect no
-- vendor: if all loans have that status, the vendor retention selects every vendor that was onboarded
-- before the period and is not pseudonymised yet.
pub vendor_expired-initiated :
    (now retention : ℕ) (loans : List LoanRow) (v : VendorRow)
    → All (λ l. l.status ≡ "initiated") loans
    → vendor_expired now retention loans v
      ≡ (is_older now (days retention) v.onboarded_at && not (is_pseudonym v.gstin))
vendor_expired-initiated now retention loans v h =
    ground (arith, has_active_loan-initiated loans v.gstin h)
