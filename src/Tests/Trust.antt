-- ===== src/Tests/Trust.antt =====
-- The trust score on a decimal with two places, and the witnesses of its theorems.
use project_k_platform.Prelude.{
  ℕ, ◌+◌, ◌*◌, ◌/◌, ◌-◌, ◌≤◌, ◌<◌, true, false, List, [], ◌∷◌, leb, leb→le, ◌≡◌, refl, arith,
}
use project_k_platform.Decimal.{Decimal, Laws, upper, lower}
use project_k_platform.Trust.{TrustGraph, init, compute_trust_score, total_of}
use project_k_platform.Trust.Log.{
  Event, attested, repaid, record_all, record_event, components_of_log,
  compute_trust_score-record_all,
}
use project_k_platform.Trust.Range.{compute_trust_score_range}

-- A decimal as a count of hundredths, rounded down.
abbrev pub hundredths : Decimal ℕ
hundredths = record {
  of_nat = λ n. n * 100;
  half = 50;
  add = λ a b. a + b;
  sub = λ a b. a - b;
  mul = λ a b. a * b / 100;
  div = λ a b. a * 100 / b;
  le = leb;
}

le→leb : (a b : ℕ) → a ≤ b → leb a b ≡ true
le→leb a b h = ground arith

mul_exact : (m n : ℕ) → m * 100 * (n * 100) / 100 ≡ m * n * 100
mul_exact m n = omega arith

mul_keeps : (a b n : ℕ) → a ≤ b → a * (n * 100) / 100 ≤ b * (n * 100) / 100
mul_keeps a b n h = grind arith

div_below : (m n : ℕ) → 0 < n → m ≤ n → m * 100 * 100 / (n * 100) ≤ 100
div_below m n h k = grind arith

zero_over : (n : ℕ) → 0 < n → 0 * 100 * 100 / (n * 100) ≡ 0 * 100
zero_over n h = grind arith

hundredths_laws : Laws hundredths
hundredths_laws = record {
  le_refl = λ a. ground arith;
  le_trans = λ a b c h k. ground arith;
  le_total = λ a b h. ground arith;
  le-of_nat = λ m n h. ground arith;
  add-of_nat = λ m n h. omega arith;
  mul-of_nat = λ m n h. mul_exact m n;
  mul-half = λ n h. omega arith;
  sub-half-le = refl;
  zero-le-half = refl;
  zero-div = zero_over;
  add_mono = λ a b x y h k. ground arith;
  sub_mono = λ a b x h. ground arith;
  sub-le = λ a x h. ground arith;
  sub_nonneg = λ a x h. ground arith;
  mul_mono = λ a b n h. le→leb _ _ (mul_keeps a b n (leb→le a b h));
  div_nonneg = λ m n h. ground arith;
  div-le-one = λ m n h k. le→leb _ _ (div_below m n h k);
}

-- An anchor that attests its vendor four times of five, and three repayments, one of them late.
abbrev history : List (Event ℕ)
history =
    attested "v" "a"
    ∷ repaid "v" "a" 500 true
    ∷ attested "v" "a"
    ∷ attested "v" "b"
    ∷ repaid "v" "a" 700 false
    ∷ attested "v" "a"
    ∷ repaid "v" "a" 900 true
    ∷ attested "v" "a"
    ∷ []

abbrev graph : TrustGraph ℕ
unfolding init
graph = record_all history init

-- 30 + 26.40 + 14 - 6
score_of_history : (compute_trust_score hundredths "v" "a" "now" graph).score ≡ 6440
unfolding compute_trust_score graph record_event
score_of_history = refl

compute_trust_score_range_example :
    let s = compute_trust_score hundredths "v" "a" "now" graph in
    ((hundredths.le 0 s.score ≡ true)
      × (hundredths.le s.score 9000 ≡ true)
      × (hundredths.le s.score (total_of hundredths s.components) ≡ true)
      × (hundredths.le (total_of hundredths s.components) s.score ≡ true))
    × (hundredths.le s.components.attestation_score 3000 ≡ true)
    × (hundredths.le s.components.repayment_score 4000 ≡ true)
    × (hundredths.le s.components.relationship_score 2000 ≡ true)
    × (hundredths.le s.components.concentration_penalty 1000 ≡ true)
compute_trust_score_range_example =
    compute_trust_score_range hundredths hundredths_laws "v" "a" "now" graph

compute_trust_score-record_all_example :
    let s = compute_trust_score hundredths "v" "a" "now" graph in
    let c = components_of_log hundredths ("v", "a") history in
    (s.components ≡ c)
    × (s.score ≡ upper hundredths 0 (lower hundredths (total_of hundredths c) 10_000))
    × (s.vendor_id ≡ "v")
    × (s.anchor_id ≡ "a")
unfolding graph
compute_trust_score-record_all_example =
    compute_trust_score-record_all hundredths "v" "a" "now" history
