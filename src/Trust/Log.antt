-- ===== src/Trust/Log.antt =====
-- The counts that the trust score of services/trust_graph/service.py reads, against the log of the
-- recorded events.
use project_k_platform.Prelude.{
  ℕ, ◌+◌, String, Bool, true, false, ◌&&◌, if◌then◌else◌, or_default, List, [], ◌∷◌, ◌++◌, length,
  length-append, count_if, Bool-cases, ◌≡◌, refl, inl, inr, arith,
}
use project_k_platform.Prelude.Eq.{◌==◌}
use project_k_platform.Prelude.Dict.{Dict, lookup, insert, lookup-insert}
use project_k_platform.Decimal.{Decimal, lower, upper}
use project_k_platform.Trust.{
  TrustGraph, TrustScoreComponents, Repayment, Pair, pair_eq, sum_values, init, total_of,
  record_attestation, record_repayment, components_of, compute_trust_score,
}

-- `d[j] = f(d.get(j, z))`, read back.
get_updated :
    {V : Type 0} (z : V) (f : V → V) (j k : Pair) (m : Dict Pair V)
    → or_default (lookup k (insert j (f (or_default (lookup j m) z)) m)) z
      ≡ (if j == k then f (or_default (lookup k m) z) else or_default (lookup k m) z)
get_updated z f j k m = elim (Bool-cases (j == k)) [
  | inl e ↦
      rw (lookup-insert j k (f (or_default (lookup j m) z)) m, e, (pair_eq.same_iff j k).0 e) refl
  | inr e ↦ rw (lookup-insert j k (f (or_default (lookup j m) z)) m, e) refl
]

sum_values-insert :
    (k : Pair) (x : ℕ) (m : Dict Pair ℕ)
    → sum_values (insert k x m) + or_default (lookup k m) 0 ≡ sum_values m + x
sum_values-insert k x [] = omega arith
sum_values-insert k x ((j, n) ∷ m) = ground (arith, sum_values-insert k x m)

-- A call that records an event for a vendor and an anchor.
pub data Event (D : Type 0) : Type 0 where
  attested : String → String → Event D
  repaid : String → String → D → Bool → Event D

module _ {D : Type 0} where
  unfoldable pub record_event : Event D → TrustGraph D → TrustGraph D
  unfolding record_attestation record_repayment
  record_event (attested v a) g = record_attestation v a g
  record_event (repaid v a amount on_time) g = record_repayment v a amount on_time g

  -- The events in the order they happen, on a graph.
  abbrev pub record_all : List (Event D) → TrustGraph D → TrustGraph D
  record_all [] g = g
  record_all (e ∷ es) g = record_all es (record_event e g)

  abbrev pub is_attestation : Event D → Bool
  is_attestation (attested v a) = true
  is_attestation _ = false

  abbrev pub attests : Pair → Event D → Bool
  attests k (attested v a) = (v, a) == k
  attests k _ = false

  abbrev pub repays : Pair → Event D → Bool
  repays k (repaid v a amount on_time) = (v, a) == k
  repays k _ = false

  abbrev pub repays_on_time : Pair → Event D → Bool
  repays_on_time k (repaid v a amount on_time) = ((v, a) == k) && on_time
  repays_on_time k _ = false

  sum_values_all :
      (es : List (Event D)) (g : TrustGraph D)
      → sum_values (record_all es g).attestations
        ≡ sum_values g.attestations + count_if is_attestation es
  unfolding record_event record_attestation record_repayment
  sum_values_all [] g = omega arith
  sum_values_all (attested v a ∷ es) g = omega (
    arith,
    sum_values_all es (record_attestation v a g),
    sum_values-insert (v, a) (or_default (lookup (v, a) g.attestations) 0 + 1) g.attestations,
  )
  sum_values_all (repaid v a amount on_time ∷ es) g =
      sum_values_all es (record_repayment v a amount on_time g)

  abbrev attestations_of : Pair → TrustGraph D → ℕ
  attestations_of k g = or_default (lookup k g.attestations) 0

  abbrev repayments_of : Pair → TrustGraph D → List (Repayment D)
  repayments_of k g = or_default (lookup k g.repayments) []

  attestations_of_all :
      (k : Pair) (es : List (Event D)) (g : TrustGraph D)
      → attestations_of k (record_all es g) ≡ attestations_of k g + count_if (attests k) es
  unfolding record_event record_attestation record_repayment
  attestations_of_all k [] g = omega arith
  attestations_of_all k (attested v a ∷ es) g = ground (
    arith,
    attestations_of_all k es (record_attestation v a g),
    get_updated 0 (λ n. n + 1) (v, a) k g.attestations,
  )
  attestations_of_all k (repaid v a amount on_time ∷ es) g =
      attestations_of_all k es (record_repayment v a amount on_time g)

  length-repayments_of_all :
      (k : Pair) (es : List (Event D)) (g : TrustGraph D)
      → length (repayments_of k (record_all es g))
        ≡ length (repayments_of k g) + count_if (repays k) es
  unfolding record_event record_attestation record_repayment
  length-repayments_of_all k [] g = omega arith
  length-repayments_of_all k (attested v a ∷ es) g =
      length-repayments_of_all k es (record_attestation v a g)
  length-repayments_of_all k (repaid v a amount on_time ∷ es) g = ground (
    arith,
    length-repayments_of_all k es (record_repayment v a amount on_time g),
    length-append (repayments_of k g) (record { amount = amount; on_time = on_time } ∷ []),
    get_updated [] (λ rs. rs ++ (record { amount = amount; on_time = on_time } ∷ [])) (v, a) k
        g.repayments,
  )

  count_if-append :
      (rs ss : List (Repayment D))
      → count_if (λ r. r.on_time) (rs ++ ss)
        ≡ count_if (λ r. r.on_time) rs + count_if (λ r. r.on_time) ss
  count_if-append [] ss = omega arith
  count_if-append (r ∷ rs) ss = ground (arith, count_if-append rs ss)

  on_time_of_all :
      (k : Pair) (es : List (Event D)) (g : TrustGraph D)
      → count_if (λ r. r.on_time) (repayments_of k (record_all es g))
        ≡ count_if (λ r. r.on_time) (repayments_of k g) + count_if (repays_on_time k) es
  unfolding record_event record_attestation record_repayment
  on_time_of_all k [] g = omega arith
  on_time_of_all k (attested v a ∷ es) g = on_time_of_all k es (record_attestation v a g)
  on_time_of_all k (repaid v a amount on_time ∷ es) g = ground (
    arith,
    on_time_of_all k es (record_repayment v a amount on_time g),
    count_if-append (repayments_of k g) (record { amount = amount; on_time = on_time } ∷ []),
    get_updated [] (λ rs. rs ++ (record { amount = amount; on_time = on_time } ∷ [])) (v, a) k
        g.repayments,
  )

  -- The components, counted on the log: attestations and repayments of the pair in any order, and
  -- all attestations.
  pub components_of_log : Decimal D → Pair → List (Event D) → TrustScoreComponents D
  unfolding components_of
  components_of_log d k es =
      components_of d (count_if (attests k) es) (count_if (repays_on_time k) es)
        (count_if (repays k) es) (count_if is_attestation es)

  -- Whatever sequence of attestations and repayments an empty graph records, the components and
  -- the score of a pair are those of the counts in that sequence: how often the anchor attested
  -- the vendor, how many repayments of the pair there were and how many on time, and how many
  -- attestations there were at all. Amounts, other pairs' repayments and the order do not count.
  pub compute_trust_score-record_all :
      (d : Decimal D) (v a now : String) (es : List (Event D))
      → let s = compute_trust_score d v a now (record_all es init) in
        let c = components_of_log d (v, a) es in
        (s.components ≡ c)
        × (s.score ≡ upper d (d.of_nat 0) (lower d (total_of d c) (d.of_nat 100)))
        × (s.vendor_id ≡ v)
        × (s.anchor_id ≡ a)
  unfolding compute_trust_score components_of_log init
  compute_trust_score-record_all d v a now es =
      rw (attestations_counted, on_time_counted, repayments_counted, total_counted)
        (refl, refl, refl, refl)
    where
      attestations_counted :
          attestations_of (v, a) (record_all es init) ≡ count_if (attests (v, a)) es
      attestations_counted = omega (arith, attestations_of_all (v, a) es init)

      on_time_counted :
          count_if (λ r. r.on_time) (repayments_of (v, a) (record_all es init))
          ≡ count_if (repays_on_time (v, a)) es
      on_time_counted = omega (arith, on_time_of_all (v, a) es init)

      repayments_counted :
          length (repayments_of (v, a) (record_all es init)) ≡ count_if (repays (v, a)) es
      repayments_counted = omega (arith, length-repayments_of_all (v, a) es init)

      total_counted : sum_values (record_all es init).attestations ≡ count_if is_attestation es
      total_counted = omega (arith, sum_values_all es init)
