-- ===== src/Prelude/Eq.antt =====
-- Types whose values can be compared, as the keys of a `dict`: numbers and texts.
use Prim.Native.Nat.{ℕ}
use Prim.Native.String.{String}
use text.Mathlib.Text.{◌==◌ as text_beq}
use text.Mathlib.TextEquality.{eq_iff}
use mathlib.Core.Path.{◌≡◌, refl, sym, ◌∙◌}
use mathlib.Core.Logic.{◌↔◌, ◌≢◌, inl, inr}
use mathlib.Core.Bool.{Bool, true, false, true≢false}
use project_k_platform.Prelude.Tests.{nat_beq, nat_beq_iff, Bool-cases}

-- A test that holds of equal values and of no others.
pub record Eq {ℓ} (Key : Type ℓ) : Type ℓ where
  pub same : Key → Key → Bool
  pub same_iff : (k j : Key) → (same k j ≡ true) ↔ (k ≡ j)

instance abbrev pub string_eq : Eq String
string_eq = record { same = text_beq; same_iff = eq_iff }

instance abbrev pub nat_eq : Eq ℕ
nat_eq = record { same = nat_beq; same_iff = nat_beq_iff }

infix 50 ◌==◌
abbrev pub ◌==◌ {ℓ} : {Key : Type ℓ} ⦃eq : Eq Key⦄ → Key → Key → Bool
◌==◌ ⦃eq⦄ k j = eq.same k j

pub beq_refl {ℓ} : {Key : Type ℓ} ⦃eq : Eq Key⦄ (k : Key) → (k == k) ≡ true
beq_refl ⦃eq⦄ k = (eq.same_iff k k).1 refl

pub beq_ne {ℓ} : {Key : Type ℓ} ⦃eq : Eq Key⦄ {k j : Key} → k ≢ j → (k == j) ≡ false
beq_ne ⦃eq⦄ {k} {j} differ = elim (Bool-cases (k == j)) [
  | inr apart ↦ apart
  | inl agree ↦ absurd (differ ((eq.same_iff k j).0 agree))
]

-- Two texts that the test tells apart.
pub unequal : (s t : String) → (s == t) ≡ false → s ≢ t
unequal s t h e = true≢false (sym ((string_eq.same_iff s t).1 e) ∙ h)
