-- ===== src/Trust/Range.antt =====
-- The clamps of the trust score of services/trust_graph/service.py, and its range.
use project_k_platform.Prelude.{
  ℕ, ◌+◌, ◌≤◌, true, List, [], String, length, count_if, or_default, subst, ◌≡◌, refl, arith,
}
use project_k_platform.Prelude.Dict.{lookup}
use project_k_platform.Decimal.{Decimal, Laws, lower, upper, upper-le, le-upper_right}
use project_k_platform.Trust.{
  TrustGraph, Repayment, pair_eq, sum_values, attestation_score, concentration_penalty,
  components_of, total_of, compute_trust_score,
}
use project_k_platform.Trust.Bounds.{
  count_if-le-length, lookup-le-sum_values, attestation_score_ceiling, repayment_score_floor,
  repayment_score_ceiling, relationship_score_floor, relationship_score_ceiling, penalty_floor,
  penalty_ceiling, penalty-le-attestation_score,
}

module _ {D : Type 0} (d : Decimal D) (laws : Laws d) where
  open laws use {le_refl, le_trans, le-of_nat, add-of_nat, add_mono}

  sum_floor :
      (f : ℕ) (a r l : D)
      → f ≤ 10
      → d.le (d.of_nat f) a ≡ true
      → d.le (d.of_nat 0) r ≡ true
      → d.le (d.of_nat 0) l ≡ true
      → d.le (d.of_nat f) (d.add (d.add a r) l) ≡ true
  sum_floor f a r l small ha hr hl = subst (λ x. d.le x (d.add (d.add a r) l) ≡ true) exact below
    where
      below :
          d.le (d.add (d.add (d.of_nat f) (d.of_nat 0)) (d.of_nat 0)) (d.add (d.add a r) l) ≡ true
      below = add_mono _ _ _ _ (add_mono _ _ _ _ ha hr) hl

      plain : f + 0 ≡ f
      plain = omega arith

      exact : d.add (d.add (d.of_nat f) (d.of_nat 0)) (d.of_nat 0) ≡ d.of_nat f
      exact = rw (add-of_nat f 0 (omega arith), plain, add-of_nat f 0 (omega arith), plain) refl

  sum_ceiling :
      (a r l : D)
      → d.le a (d.of_nat 30) ≡ true
      → d.le r (d.of_nat 40) ≡ true
      → d.le l (d.of_nat 20) ≡ true
      → d.le (d.add (d.add a r) l) (d.of_nat 90) ≡ true
  sum_ceiling a r l ha hr hl = subst (λ x. d.le (d.add (d.add a r) l) x ≡ true) exact above
    where
      above :
          d.le (d.add (d.add a r) l) (d.add (d.add (d.of_nat 30) (d.of_nat 40)) (d.of_nat 20))
          ≡ true
      above = add_mono _ _ _ _ (add_mono _ _ _ _ ha hr) hl

      exact : d.add (d.add (d.of_nat 30) (d.of_nat 40)) (d.of_nat 20) ≡ d.of_nat 90
      exact = rw (add-of_nat 30 40 (omega arith), add-of_nat 70 20 (omega arith)) refl

  total_floor :
      (m o r n : ℕ) → m ≤ n → d.le (d.of_nat 0) (total_of d (components_of d m o r n)) ≡ true
  unfolding total_of components_of
  total_floor m o r n some_of = go (penalty-le-attestation_score d laws m n some_of)
    where
      go :
          (f : ℕ) × (d.le (concentration_penalty d m n) (d.of_nat f) ≡ true)
            × (d.le (d.of_nat f) (attestation_score d m) ≡ true)
            × (f ≤ 10)
          → d.le (d.of_nat 0) (total_of d (components_of d m o r n)) ≡ true
      go (f, low, high, small) = laws.sub_nonneg _ (concentration_penalty d m n) (
          le_trans _ (d.of_nat f) _ low (
            sum_floor f _ _ _ small high (repayment_score_floor d laws o r)
              (relationship_score_floor d laws (m + r))))

  total_ceiling :
      (m o r n : ℕ) → o ≤ r → d.le (total_of d (components_of d m o r n)) (d.of_nat 90) ≡ true
  unfolding total_of components_of
  total_ceiling m o r n h =
      le_trans _ _ (d.of_nat 90)
        (laws.sub-le _ (concentration_penalty d m n) (penalty_floor d laws m n))
        (sum_ceiling _ _ _ (attestation_score_ceiling d laws m)
          (repayment_score_ceiling d laws o r h) (relationship_score_ceiling d laws (m + r)))

  -- Clamping a value between 0 and 90 changes nothing.
  clamp_range :
      (t : D)
      → d.le (d.of_nat 0) t ≡ true
      → d.le t (d.of_nat 90) ≡ true
      → let s = upper d (d.of_nat 0) (lower d t (d.of_nat 100)) in
        (d.le (d.of_nat 0) s ≡ true)
        × (d.le s (d.of_nat 90) ≡ true)
        × (d.le s t ≡ true)
        × (d.le t s ≡ true)
  clamp_range t low high =
      rw (le_trans t (d.of_nat 90) (d.of_nat 100) high (le-of_nat 90 100 (omega arith))) (
        le_trans (d.of_nat 0) t _ low above,
        upper-le d laws (d.of_nat 0) t (d.of_nat 90) (le-of_nat 0 90 (omega arith)) high,
        upper-le d laws (d.of_nat 0) t t low (le_refl t),
        above,
      )
    where
      above : d.le t (upper d (d.of_nat 0) t) ≡ true
      above = le-upper_right d laws (d.of_nat 0) t

  -- The trust score of any pair lies between 0 and 90, and it is the sum of the first three
  -- components less the penalty: neither clamp, at 0 or at 100, ever changes the value. The
  -- attestation score is at most 30, the repayment score at most 40, the relationship score at
  -- most 20, and the penalty at most 10.
  pub compute_trust_score_range :
      (v a now : String) (g : TrustGraph D)
      → let s = compute_trust_score d v a now g in
        ((d.le (d.of_nat 0) s.score ≡ true)
          × (d.le s.score (d.of_nat 90) ≡ true)
          × (d.le s.score (total_of d s.components) ≡ true)
          × (d.le (total_of d s.components) s.score ≡ true))
        × (d.le s.components.attestation_score (d.of_nat 30) ≡ true)
        × (d.le s.components.repayment_score (d.of_nat 40) ≡ true)
        × (d.le s.components.relationship_score (d.of_nat 20) ≡ true)
        × (d.le s.components.concentration_penalty (d.of_nat 10) ≡ true)
  unfolding compute_trust_score
  compute_trust_score_range v a now g = (
    clamp_range _ (total_floor m o r n some_of) (total_ceiling m o r n on_time),
    attestation_score_ceiling d laws m,
    repayment_score_ceiling d laws o r on_time,
    relationship_score_ceiling d laws (m + r),
    penalty_ceiling d laws m n some_of,
  )
    where
      m : ℕ
      m = or_default (lookup (v, a) g.attestations) 0

      n : ℕ
      n = sum_values g.attestations

      paid : List (Repayment D)
      paid = or_default (lookup (v, a) g.repayments) []

      r : ℕ
      r = length paid

      o : ℕ
      o = count_if (λ x. x.on_time) paid

      some_of : m ≤ n
      some_of = lookup-le-sum_values (v, a) g.attestations

      on_time : o ≤ r
      on_time = count_if-le-length (λ x. x.on_time) paid
