-- ===== src/Decimal.antt =====
-- Python's `decimal.Decimal`, which is not part of the repository, as an interface: the operations
-- that the services use, and what they rely on. A result may be rounded; rounding keeps the order,
-- and sums and products of small whole numbers are exact.
use project_k_platform.Prelude.{
  ℕ, ◌+◌, ◌*◌, ◌^◌, ◌≤◌, ◌<◌, Bool, true, false, not, if◌then◌else◌, ◌≡◌, inl, inr, Bool-cases,
}

pub record Decimal (D : Type 0) : Type 0 where
  -- `Decimal(n)`, and `Decimal("0.5")`
  pub of_nat : ℕ → D
  pub half : D
  pub add : D → D → D
  pub sub : D → D → D
  pub mul : D → D → D
  pub div : D → D → D
  -- `a <= b`
  pub le : D → D → Bool

module _ {D : Type 0} (d : Decimal D) where
  -- `a < b`
  abbrev pub less : D → D → Bool
  less a b = not (d.le b a)

  -- `min(a, b)`
  abbrev pub lower : D → D → D
  lower a b = if less b a then b else a

  -- `max(a, b)`
  abbrev pub upper : D → D → D
  upper a b = if less a b then b else a

  -- What the documentation of the decimal module promises, for values that are not NaN. Counts
  -- stand below 10 ^ 26, where the default precision of 28 digits is exact.
  pub record Laws : Type 0 where
    pub le_refl : (a : D) → d.le a a ≡ true
    pub le_trans : (a b c : D) → d.le a b ≡ true → d.le b c ≡ true → d.le a c ≡ true
    pub le_total : (a b : D) → d.le a b ≡ false → d.le b a ≡ true
    pub le-of_nat : (m n : ℕ) → m ≤ n → d.le (d.of_nat m) (d.of_nat n) ≡ true
    pub add-of_nat :
        (m n : ℕ) → m + n < 10 ^ 28 → d.add (d.of_nat m) (d.of_nat n) ≡ d.of_nat (m + n)
    pub mul-of_nat :
        (m n : ℕ) → m * n < 10 ^ 28 → d.mul (d.of_nat m) (d.of_nat n) ≡ d.of_nat (m * n)
    pub mul-half : (n : ℕ) → 2 * n < 10 ^ 28 → d.mul d.half (d.of_nat (2 * n)) ≡ d.of_nat n
    pub sub-half-le : d.le (d.sub (d.of_nat 1) d.half) d.half ≡ true
    pub zero-le-half : d.le (d.of_nat 0) d.half ≡ true
    pub zero-div : (n : ℕ) → 0 < n → d.div (d.of_nat 0) (d.of_nat n) ≡ d.of_nat 0
    pub add_mono :
        (a b x y : D) → d.le a b ≡ true → d.le x y ≡ true → d.le (d.add a x) (d.add b y) ≡ true
    pub sub_mono : (a b x : D) → d.le a b ≡ true → d.le (d.sub a x) (d.sub b x) ≡ true
    pub sub-le : (a x : D) → d.le (d.of_nat 0) x ≡ true → d.le (d.sub a x) a ≡ true
    pub sub_nonneg : (a x : D) → d.le x a ≡ true → d.le (d.of_nat 0) (d.sub a x) ≡ true
    pub mul_mono :
        (a b : D) (n : ℕ)
        → d.le a b ≡ true
        → d.le (d.mul a (d.of_nat n)) (d.mul b (d.of_nat n)) ≡ true
    pub div_nonneg : (m n : ℕ) → 0 < n → d.le (d.of_nat 0) (d.div (d.of_nat m) (d.of_nat n)) ≡ true
    pub div-le-one :
        (m n : ℕ) → 0 < n → m ≤ n → d.le (d.div (d.of_nat m) (d.of_nat n)) (d.of_nat 1) ≡ true

  module _ (laws : Laws) where
    pub lower-le-left : (a b : D) → d.le (lower a b) a ≡ true
    lower-le-left a b = elim (Bool-cases (d.le a b)) [
      | inl e ↦ rw e (laws.le_refl a)
      | inr e ↦ rw e (laws.le_total a b e)
    ]

    pub lower-le-right : (a b : D) → d.le (lower a b) b ≡ true
    lower-le-right a b = elim (Bool-cases (d.le a b)) [
      | inl e ↦ rw e e
      | inr e ↦ rw e (laws.le_refl b)
    ]

    pub le-lower : (a b x : D) → d.le x a ≡ true → d.le x b ≡ true → d.le x (lower a b) ≡ true
    le-lower a b x h k = elim (Bool-cases (d.le a b)) [ inl e ↦ rw e h | inr e ↦ rw e k ]

    -- The larger of two values, below a bound of both.
    pub upper-le : (a b x : D) → d.le a x ≡ true → d.le b x ≡ true → d.le (upper a b) x ≡ true
    upper-le a b x h k = elim (Bool-cases (d.le b a)) [ inl e ↦ rw e h | inr e ↦ rw e k ]

    pub le-upper : (a b : D) → d.le a (upper a b) ≡ true
    le-upper a b = elim (Bool-cases (d.le b a)) [
      | inl e ↦ rw e (laws.le_refl a)
      | inr e ↦ rw e (laws.le_total b a e)
    ]

    pub le-upper_right : (a b : D) → d.le b (upper a b) ≡ true
    le-upper_right a b = elim (Bool-cases (d.le b a)) [
      | inl e ↦ rw e e
      | inr e ↦ rw e (laws.le_refl b)
    ]
