-- ===== src/Trust.antt =====
-- services/trust_graph: the graph of vendors and anchors, the events recorded for a pair, and the
-- trust score. A UUID is a text; the clock and new identifiers are arguments.
pub mod Log
pub mod Bounds
pub mod Range
use project_k_platform.Prelude.{
  ℕ, ◌+◌, String, Bool, true, false, not, ◌||◌, if◌then◌else◌, Option, none, some, or_default, List,
  [], ◌∷◌, ◌++◌, length, keep, count_if, ltb, ◌≡◌, arith,
}
use project_k_platform.Prelude.Eq.{Eq, ◌==◌, string_eq}
use project_k_platform.Prelude.Dict.{Dict, lookup, insert}
use project_k_platform.Decimal.{Decimal, lower, upper}

-- `str | int | float | bool | None`, a number as its text.
pub data Property : Type 0 where
  str int float : String → Property
  bool : Bool → Property
  null : Property

pub record GraphNode : Type 0 where
  pub node_id : String
  pub node_type : String
  pub properties : Dict String Property
  pub created_at : Option String

pub record GraphEdge (D : Type 0) : Type 0 where
  pub source_id : String
  pub target_id : String
  pub edge_type : String
  pub weight : D
  pub properties : Dict String Property
  pub created_at : Option String

pub record TrustScoreComponents (D : Type 0) : Type 0 where
  pub attestation_score : D
  pub repayment_score : D
  pub relationship_score : D
  pub concentration_penalty : D

pub record TrustScore (D : Type 0) : Type 0 where
  pub vendor_id : String
  pub anchor_id : String
  pub score : D
  pub components : TrustScoreComponents D
  pub computed_at : String

pub record Repayment (D : Type 0) : Type 0 where
  pub amount : D
  pub on_time : Bool

-- The key `(vendor_id, anchor_id)`.
abbrev pub Pair : Type 0
Pair = String × String

abbrev pub same_pair : Pair → Pair → Bool
same_pair (v, a) (w, b) = if v == w then a == b else false

pub same_pair→eq : (p q : Pair) → same_pair p q ≡ true → p ≡ q
same_pair→eq (v, a) (w, b) h = ground (arith, string_eq.same_iff v w, string_eq.same_iff a b)

pub eq→same_pair : (p q : Pair) → p ≡ q → same_pair p q ≡ true
eq→same_pair (v, a) (w, b) h = ground (arith, string_eq.same_iff v w, string_eq.same_iff a b)

instance abbrev pub pair_eq : Eq Pair
pair_eq = record { same = same_pair; same_iff = λ p q. (same_pair→eq p q, eq→same_pair p q) }

pub record TrustGraph (D : Type 0) : Type 0 where
  pub nodes : Dict String GraphNode
  pub edges : List (GraphEdge D)
  pub attestations : Dict Pair ℕ
  pub repayments : Dict Pair (List (Repayment D))

-- `sum(d.values())`
abbrev pub sum_values : Dict Pair ℕ → ℕ
sum_values [] = 0
sum_values ((k, n) ∷ m) = n + sum_values m

module _ {D : Type 0} where
  -- `__init__`
  unfoldable pub init : TrustGraph D
  init = record { nodes = []; edges = []; attestations = []; repayments = [] }

  unfoldable pub add_node :
      String → Dict String Property → String → String → TrustGraph D → GraphNode × TrustGraph D
  add_node node_type properties node_id now g =
      (node, record g { nodes = insert node_id node g.nodes })
    where
      node : GraphNode
      node = record {
        node_id = node_id;
        node_type = node_type;
        properties = properties;
        created_at = some now;
      }

  unfoldable pub add_edge :
      String
      → String
      → String
      → D
      → Dict String Property
      → String
      → TrustGraph D
      → GraphEdge D × TrustGraph D
  add_edge source_id target_id edge_type weight properties now g =
      (edge, record g { edges = g.edges ++ (edge ∷ []) })
    where
      edge : GraphEdge D
      edge = record {
        source_id = source_id;
        target_id = target_id;
        edge_type = edge_type;
        weight = weight;
        properties = properties;
        created_at = some now;
      }

  unfoldable pub record_attestation : String → String → TrustGraph D → TrustGraph D
  record_attestation vendor_id anchor_id g = record g {
    attestations = insert key (or_default (lookup key g.attestations) 0 + 1) g.attestations;
  }
    where
      key : Pair
      key = (vendor_id, anchor_id)

  unfoldable pub record_repayment : String → String → D → Bool → TrustGraph D → TrustGraph D
  record_repayment vendor_id anchor_id amount on_time g = record g {
    repayments =
        insert key
          (or_default (lookup key g.repayments) []
            ++ (record { amount = amount; on_time = on_time } ∷ []))
          g.repayments;
  }
    where
      key : Pair
      key = (vendor_id, anchor_id)

  unfoldable pub get_vendor_edges : String → TrustGraph D → List (GraphEdge D)
  get_vendor_edges vendor_id g =
      keep (λ e. (e.source_id == vendor_id) || (e.target_id == vendor_id)) g.edges

  unfoldable pub get_node : String → TrustGraph D → Option GraphNode
  get_node node_id g = lookup node_id g.nodes

  module _ (d : Decimal D) where
    unfoldable pub attestation_score : ℕ → D
    attestation_score count = lower d (d.mul (d.of_nat count) (d.of_nat 10)) (d.of_nat 30)

    -- The repayments of the pair, by how many there are and how many were on time.
    unfoldable pub repayment_score : ℕ → ℕ → D
    repayment_score on_time total =
        if ltb 0 total
        then d.mul (d.div (d.of_nat on_time) (d.of_nat total)) (d.of_nat 40)
        else d.of_nat 0

    unfoldable pub relationship_score : ℕ → D
    relationship_score count = lower d (d.mul (d.of_nat count) (d.of_nat 2)) (d.of_nat 20)

    unfoldable pub concentration_penalty : ℕ → ℕ → D
    concentration_penalty count total =
        if ltb 0 total
        then upper d (d.of_nat 0)
            (d.mul (d.sub (d.div (d.of_nat count) (d.of_nat total)) d.half) (d.of_nat 20))
        else d.of_nat 0

    unfoldable pub components_of : ℕ → ℕ → ℕ → ℕ → TrustScoreComponents D
    unfolding attestation_score repayment_score relationship_score concentration_penalty
    components_of attested on_time repaid all_attested = record {
      attestation_score = attestation_score attested;
      repayment_score = repayment_score on_time repaid;
      relationship_score = relationship_score (attested + repaid);
      concentration_penalty = concentration_penalty attested all_attested;
    }

    -- The sum of the components, before it is clamped.
    unfoldable pub total_of : TrustScoreComponents D → D
    total_of c =
        d.sub (d.add (d.add c.attestation_score c.repayment_score) c.relationship_score)
          c.concentration_penalty

    unfoldable pub compute_trust_score : String → String → String → TrustGraph D → TrustScore D
    unfolding components_of total_of
    compute_trust_score vendor_id anchor_id now g = record {
      vendor_id = vendor_id;
      anchor_id = anchor_id;
      score = upper d (d.of_nat 0) (lower d (total_of components) (d.of_nat 100));
      components = components;
      computed_at = now;
    }
      where
        key : Pair
        key = (vendor_id, anchor_id)

        repayments : List (Repayment D)
        repayments = or_default (lookup key g.repayments) []

        components : TrustScoreComponents D
        components =
            components_of (or_default (lookup key g.attestations) 0)
              (count_if (λ r. r.on_time) repayments) (length repayments) (sum_values g.attestations)
