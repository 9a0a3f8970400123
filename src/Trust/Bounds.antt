-- ===== src/Trust/Bounds.antt =====
-- The range of the trust score of services/trust_graph/service.py.
use project_k_platform.Prelude.{
  ℕ, zero, suc, ◌*◌, ◌^◌, ◌≤◌, ◌<◌, Bool, true, List, [], ◌∷◌, length, count_if, or_default,
  Bool-cases, ltb, ltb→lt, ◌≡◌, inl, inr, arith,
}
use project_k_platform.Prelude.Eq.{◌==◌}
use project_k_platform.Prelude.Dict.{Dict, lookup}
use project_k_platform.Decimal.{Decimal, Laws, lower-le-right, le-lower, upper-le, le-upper}
use project_k_platform.Trust.{
  Pair, pair_eq, sum_values, attestation_score, repayment_score, relationship_score,
  concentration_penalty,
}

pub count_if-le-length : {A : Type 0} (p : A → Bool) (xs : List A) → count_if p xs ≤ length xs
count_if-le-length p [] = omega arith
count_if-le-length p (x ∷ xs) = ground (arith, count_if-le-length p xs)

pub lookup-le-sum_values : (k : Pair) (m : Dict Pair ℕ) → or_default (lookup k m) 0 ≤ sum_values m
lookup-le-sum_values k [] = omega arith
lookup-le-sum_values k ((j, n) ∷ m) = elim (Bool-cases (j == k)) [
  | inl e ↦ rw e (omega arith)
  | inr e ↦ rw e (omega (arith, lookup-le-sum_values k m))
]

module _ {D : Type 0} (d : Decimal D) (laws : Laws d) where
  open laws use {le_refl, le_trans, le-of_nat, add-of_nat, mul-of_nat, add_mono, mul_mono}

  -- A product with a whole number, from a bound of the other factor.
  mul_floor :
      (m k : ℕ) (x : D)
      → m * k < 10 ^ 28
      → d.le (d.of_nat m) x ≡ true
      → d.le (d.of_nat (m * k)) (d.mul x (d.of_nat k)) ≡ true
  mul_floor m k x small h = rw (← mul-of_nat m k small) (mul_mono (d.of_nat m) x k h)

  mul_ceiling :
      (m k : ℕ) (x : D)
      → m * k < 10 ^ 28
      → d.le x (d.of_nat m) ≡ true
      → d.le (d.mul x (d.of_nat k)) (d.of_nat (m * k)) ≡ true
  mul_ceiling m k x small h = rw (← mul-of_nat m k small) (mul_mono x (d.of_nat m) k h)

  attestation_score_floor :
      (m n : ℕ) → m ≤ n → m ≤ 1 → d.le (d.of_nat (m * 10)) (attestation_score d n) ≡ true
  unfolding attestation_score
  attestation_score_floor m n h one =
      le-lower d laws _ (d.of_nat 30) (d.of_nat (m * 10))
        (mul_floor m 10 (d.of_nat n) (omega arith) (le-of_nat m n h))
        (le-of_nat (m * 10) 30 (omega arith))

  pub attestation_score_ceiling : (n : ℕ) → d.le (attestation_score d n) (d.of_nat 30) ≡ true
  unfolding attestation_score
  attestation_score_ceiling n = lower-le-right d laws _ (d.of_nat 30)

  pub repayment_score_floor : (m n : ℕ) → d.le (d.of_nat 0) (repayment_score d m n) ≡ true
  unfolding repayment_score
  repayment_score_floor m n = elim (Bool-cases (ltb 0 n)) [
    | inl e ↦ rw e (mul_floor 0 40 _ (omega arith) (laws.div_nonneg m n (ltb→lt 0 n e)))
    | inr e ↦ rw e (le_refl (d.of_nat 0))
  ]

  pub repayment_score_ceiling :
      (m n : ℕ) → m ≤ n → d.le (repayment_score d m n) (d.of_nat 40) ≡ true
  unfolding repayment_score
  repayment_score_ceiling m n h = elim (Bool-cases (ltb 0 n)) [
    | inl e ↦ rw e (mul_ceiling 1 40 _ (omega arith) (laws.div-le-one m n (ltb→lt 0 n e) h))
    | inr e ↦ rw e (le-of_nat 0 40 (omega arith))
  ]

  pub relationship_score_floor : (n : ℕ) → d.le (d.of_nat 0) (relationship_score d n) ≡ true
  unfolding relationship_score
  relationship_score_floor n =
      le-lower d laws _ (d.of_nat 20) (d.of_nat 0)
        (mul_floor 0 2 (d.of_nat n) (omega arith) (le-of_nat 0 n (omega arith)))
        (le-of_nat 0 20 (omega arith))

  pub relationship_score_ceiling : (n : ℕ) → d.le (relationship_score d n) (d.of_nat 20) ≡ true
  unfolding relationship_score
  relationship_score_ceiling n = lower-le-right d laws _ (d.of_nat 20)

  pub penalty_floor : (m n : ℕ) → d.le (d.of_nat 0) (concentration_penalty d m n) ≡ true
  unfolding concentration_penalty
  penalty_floor m n = elim (Bool-cases (ltb 0 n)) [
    | inl e ↦ rw e (le-upper d laws (d.of_nat 0) _)
    | inr e ↦ rw e (le_refl (d.of_nat 0))
  ]

  -- Half of the attestations are free.
  pub penalty_ceiling : (m n : ℕ) → m ≤ n → d.le (concentration_penalty d m n) (d.of_nat 10) ≡ true
  unfolding concentration_penalty
  penalty_ceiling m n h = elim (Bool-cases (ltb 0 n)) [
    | inl e ↦ rw e (
        upper-le d laws (d.of_nat 0) _ (d.of_nat 10) (le-of_nat 0 10 (omega arith))
          (excess_le (ltb→lt 0 n e)))
    | inr e ↦ rw e (le-of_nat 0 10 (omega arith))
  ]
    where
      excess_le :
          0 < n
          → d.le
              (d.mul (d.sub (d.div (d.of_nat m) (d.of_nat n)) d.half) (d.of_nat 20))
              (d.of_nat 10)
            ≡ true
      excess_le pos = rw (← laws.mul-half 10 (omega arith)) (
          mul_mono _ d.half 20 (
            le_trans _ (d.sub (d.of_nat 1) d.half) d.half
              (laws.sub_mono _ (d.of_nat 1) d.half (laws.div-le-one m n pos h)) laws.sub-half-le))

  penalty_without_attestation : (n : ℕ) → d.le (concentration_penalty d 0 n) (d.of_nat 0) ≡ true
  unfolding concentration_penalty
  penalty_without_attestation n = elim (Bool-cases (ltb 0 n)) [
    | inl e ↦ rw e (
        upper-le d laws (d.of_nat 0) _ (d.of_nat 0) (le_refl (d.of_nat 0)) (
          mul_ceiling 0 20 _ (omega arith) (
            rw (laws.zero-div n (ltb→lt 0 n e))
              (laws.sub-le (d.of_nat 0) d.half laws.zero-le-half))))
    | inr e ↦ rw e (le_refl (d.of_nat 0))
  ]

  -- The attestations of a pair outweigh its penalty.
  pub penalty-le-attestation_score :
      (m n : ℕ)
      → m ≤ n
      → (f : ℕ) × (d.le (concentration_penalty d m n) (d.of_nat f) ≡ true)
        × (d.le (d.of_nat f) (attestation_score d m) ≡ true)
        × (f ≤ 10)
  penalty-le-attestation_score zero n h = (
    0,
    penalty_without_attestation n,
    attestation_score_floor 0 0 (omega arith) (omega arith),
    omega arith,
  )
  penalty-le-attestation_score (suc m) n h = (
    10,
    penalty_ceiling (suc m) n h,
    attestation_score_floor 1 (suc m) (omega arith) (omega arith),
    omega arith,
  )
