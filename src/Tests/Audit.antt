-- ===== src/Tests/Audit.antt =====
-- A chain of two receipts.
use project_k_platform.Prelude.{
  ℕ, String, ◌≡◌, ◌⊎◌, refl, true, Option, none, some, List, [], ◌∷◌, map,
}
use project_k_platform.Prelude.Result.{ok}
use project_k_platform.Audit.{
  Facts, DecisionReceipt, ReceiptSigner, Draft, unsigned, bare, verify_from, verify_chain, issue,
}
use project_k_platform.Audit.Chain.{Collide, hashed_texts, issue-verify_chain, verify_chain_unique}

-- A digest of the right length.
abbrev digest : String → String
digest x = "0000000000000000000000000000000000000000000000000000000000000000"

abbrev keyed : String → String → String
keyed key data_ = key

abbrev printed : Facts → String
printed facts = "{}"

abbrev gate_of : DecisionReceipt → String
gate_of r = r.gate

abbrev signer_one : ReceiptSigner
signer_one = record { key = "dev"; mode = "hmac" }

abbrev draft_of : ℕ → String → Draft
draft_of id gate = record {
  id = id;
  evaluated_at = 100;
  loan_application_id = 7;
  gate = gate;
  outcome = "pass";
  ruleset_hash = "h";
  rule_input = [];
  rule_output = [];
  engine_version = "v";
}

abbrev drafts : List Draft
drafts = draft_of 1 "d0_kind1_gate" ∷ draft_of 2 "d1_data_sufficiency" ∷ []

issue-verify_chain_example :
    (rs : List DecisionReceipt) × (issue digest keyed printed gate_of signer_one none drafts
      ≡ ok rs)
    × (verify_chain digest gate_of rs ≡ true)
    × (map bare rs ≡ map (unsigned digest printed) drafts)
issue-verify_chain_example = issue-verify_chain digest keyed printed gate_of signer_one drafts refl

abbrev receipt_of : ℕ → Option String → DecisionReceipt
receipt_of id signature = record {
  id = id;
  loan_application_id = 7;
  gate = "d0_kind1_gate";
  outcome = "pass";
  ruleset_hash = "h";
  input_hash = "i";
  output = [];
  engine_version = "v";
  signature = signature;
  chain_hash = some (digest "");
  evaluated_at = 100;
}

verified : verify_chain digest gate_of (receipt_of 1 none ∷ receipt_of 2 (some "s") ∷ []) ≡ true
unfolding verify_chain verify_from
verified = refl

verify_chain_unique_example :
    let gates : List String = "d0_kind1_gate" ∷ "d0_kind1_gate" ∷ [] in
    let rs = receipt_of 1 none ∷ receipt_of 2 (some "s") ∷ [] in
    Collide digest (hashed_texts gate_of none rs) (hashed_texts gate_of none rs) ⊎ (gates ≡ gates)
verify_chain_unique_example =
    verify_chain_unique digest gate_of (receipt_of 1 none ∷ receipt_of 2 (some "s") ∷ [])
      (receipt_of 1 none ∷ receipt_of 2 (some "s") ∷ []) (λ x. refl) verified verified refl refl
