-- ===== src/Audit.antt =====
-- libs/audit/receipts.py: decision receipts, their signatures and their hash chain. `sha256` is the
-- hex digest, `hmac` the keyed one, and `json` and `json_of` are the canonical JSON of a dict and of
-- a receipt; bytes are texts.
pub mod Chain
use project_k_platform.Prelude.{
  ℕ, String, Bool, true, false, ◌&&◌, Option, none, some, List, [], ◌∷◌, if◌then◌else◌,
}
use Prim.Native.String.{◌++◌}
use project_k_platform.Prelude.Dict.{Dict}
use project_k_platform.Prelude.Eq.{◌==◌, string_eq}
use project_k_platform.Prelude.Result.{Result, ok, err, not_implemented_error, ◌>>=◌}

-- A dict of facts, each value printed.
abbrev pub Facts : Type 0
Facts = Dict String String

pub record DecisionReceipt : Type 0 where
  pub id : ℕ
  pub loan_application_id : ℕ
  pub gate : String
  pub outcome : String
  pub ruleset_hash : String
  pub input_hash : String
  pub output : Facts
  pub engine_version : String
  pub signature : Option String
  pub chain_hash : Option String
  pub evaluated_at : ℕ

pub record ReceiptSigner : Type 0 where
  pub key : String
  pub mode : String

-- The arguments of `create_receipt`, with the new uuid and the clock.
pub record Draft : Type 0 where
  pub id : ℕ
  pub evaluated_at : ℕ
  pub loan_application_id : ℕ
  pub gate : String
  pub outcome : String
  pub ruleset_hash : String
  pub rule_input : Facts
  pub rule_output : Facts
  pub engine_version : String

unfoldable pub sign : (String → String → String) → ReceiptSigner → String → Result String
sign hmac s data_ =
    if s.mode == "hmac"
    then ok (hmac s.key data_)
    else err (not_implemented_error "Signing mode not implemented")

-- `model_copy(update={"chain_hash": None, "signature": None})`
abbrev pub bare : DecisionReceipt → DecisionReceipt
bare r = record r { signature = none; chain_hash = none }

abbrev pub is_hash : Option String → String → Bool
is_hash none expected = false
is_hash (some h) expected = h == expected

module _ (sha256 : String → String) where
  -- SHA-256(receipt_bytes ‖ h_{n-1}); a missing or empty previous hash adds nothing.
  abbrev pub link : String → Option String → String
  link bytes none = sha256 bytes
  link bytes (some h) = if h == "" then sha256 bytes else sha256 (bytes ++ h)

  abbrev pub unsigned : (Facts → String) → Draft → DecisionReceipt
  unsigned json d = record {
    id = d.id;
    loan_application_id = d.loan_application_id;
    gate = d.gate;
    outcome = d.outcome;
    ruleset_hash = d.ruleset_hash;
    input_hash = sha256 (json d.rule_input);
    output = d.rule_output;
    engine_version = d.engine_version;
    signature = none;
    chain_hash = none;
    evaluated_at = d.evaluated_at;
  }

module _ (sha256 : String → String) (json_of : DecisionReceipt → String) where
  -- The loop of `verify_chain` after a receipt with the hash `prev`.
  unfoldable pub verify_from : Option String → List DecisionReceipt → Bool
  verify_from prev [] = true
  verify_from prev (r ∷ rs) =
      is_hash r.chain_hash (link sha256 (json_of (bare r)) prev) && verify_from r.chain_hash rs

  unfoldable pub verify_chain : List DecisionReceipt → Bool
  unfolding verify_from
  verify_chain rs = verify_from none rs

module _ (sha256 : String → String) (hmac : String → String → String) (json : Facts → String)
    (json_of : DecisionReceipt → String) where
  abbrev pub signed : Draft → Option String → String → DecisionReceipt
  signed d previous signature = record (unsigned sha256 json d) {
    signature = some signature;
    chain_hash = some (link sha256 (json_of (unsigned sha256 json d)) previous);
  }

  unfoldable pub create_receipt : ReceiptSigner → Draft → Option String → Result DecisionReceipt
  unfolding sign
  create_receipt s d previous = do
    signature ← sign hmac s (json_of (unsigned sha256 json d))
    ok (signed d previous signature)

  -- Receipts created one after another, each with the hash of the one before.
  unfoldable pub issue : ReceiptSigner → Option String → List Draft → Result (List DecisionReceipt)
  unfolding create_receipt
  issue s previous [] = ok []
  issue s previous (d ∷ ds) = do
    r ← create_receipt s d previous
    rs ← issue s r.chain_hash ds
    ok (r ∷ rs)
