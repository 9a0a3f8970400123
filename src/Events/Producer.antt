-- ===== src/Events/Producer.antt =====
-- The factories of libs/common/events.py, and EventProducer of libs/common/event_producer.py. The
-- clock and new identifiers are arguments; scanning a payload for personal data (dpdp_core), encoding
-- JSON and the text of a UUID are parameters.
use Prim.Native.String.{◌++◌}
use project_k_platform.Prelude.{ℕ, String, Bool, Option, none, some, [], ◌∷◌}
use project_k_platform.Events.{
  EventType, value, invoice_kind1_attested, loan_decision_evaluated, loan_repayment_observed, text,
  flag, Payload, EventMetadata, TradeEvent,
}

-- A record as the producer passes it to Redpanda.
pub record Message : Type 0 where
  pub topic : String
  pub key : String
  pub value : String
  pub event_type : String
  pub schema_version : String
  pub correlation_id : String

-- The envelope of a factory: new identifier and time first.
abbrev envelope : ℕ → ℕ → EventType → String → ℕ → Option ℕ → Payload → EventMetadata → TradeEvent
envelope event_id now event_type entity_type entity_id correlation_id payload metadata = record {
  event_id = event_id;
  event_type = event_type;
  schema_version = "1.0.0";
  entity_type = entity_type;
  entity_id = entity_id;
  correlation_id = correlation_id;
  payload = payload;
  metadata = metadata;
  occurred_at = now;
}

unfoldable pub kind1_attested_event :
    ℕ → ℕ → ℕ → ℕ → String → String → Bool → Bool → EventMetadata → TradeEvent
kind1_attested_event event_id now invoice_id loan_application_id irn ims_status routing is_kind1
      meta =
    envelope event_id now invoice_kind1_attested "invoice" invoice_id (some loan_application_id)
      (("irn", text irn)
        ∷ ("ims_status", text ims_status)
        ∷ ("repayment_routing_active", flag routing)
        ∷ ("is_kind1", flag is_kind1)
        ∷ [])
      meta

module _ (show : ℕ → String) where
  unfoldable pub decision_evaluated_event :
      ℕ → ℕ → ℕ → String → String → String → String → ℕ → EventMetadata → TradeEvent
  decision_evaluated_event event_id now loan gate outcome ruleset_hash input_hash receipt_id meta =
      envelope event_id now loan_decision_evaluated "loan" loan (some loan)
        (("gate", text gate)
          ∷ ("outcome", text outcome)
          ∷ ("ruleset_hash", text ruleset_hash)
          ∷ ("input_hash", text input_hash)
          ∷ ("receipt_id", text (show receipt_id))
          ∷ [])
        meta

  -- `topic_key`
  unfoldable pub topic_key : TradeEvent → String
  topic_key e = e.entity_type ++ ":" ++ show e.entity_id

  -- `str(event.correlation_id or "")`
  abbrev correlation : Option ℕ → String
  correlation none = ""
  correlation (some id) = show id

  -- What `publish` produces.
  unfoldable pub publish : (Payload → Payload) → (TradeEvent → String) → TradeEvent → Message
  unfolding topic_key
  publish scan_payload dumps e = record {
    topic = "ocen.trade-events.v1";
    key = topic_key e;
    value = dumps (record e { payload = scan_payload e.payload });
    event_type = value e.event_type;
    schema_version = e.schema_version;
    correlation_id = correlation e.correlation_id;
  }

-- `str(amount)` is an argument.
unfoldable pub repayment_observed_event :
    ℕ → ℕ → ℕ → String → Bool → String → EventMetadata → TradeEvent
repayment_observed_event event_id now loan amount paid_by_anchor payment_reference meta =
    envelope event_id now loan_repayment_observed "loan" loan (some loan)
      (("amount", text amount)
        ∷ ("paid_by_anchor", flag paid_by_anchor)
        ∷ ("payment_reference", text payment_reference)
        ∷ [])
      meta
