-- ===== src/Ops.antt =====
-- services/borrower_gateway/ops_api.py and ops_models.py: the endpoints for the back office and for
-- vendors. What a call does beside its response is a list of effects, in order. A UUID is a number
-- and `show` its text, as in the gateway; an amount is a number of millionths.
pub mod Commands
pub mod Onboarding
pub mod Applications
pub mod Endpoints
pub mod Forwarding
pub mod Holds
pub mod Authorization
use text.Mathlib.Text.{starts_with}
use Prim.Native.String.{slice, len}
use project_k_platform.Prelude.{
  ℕ, String, Bool, Option, none, some, List, [], ◌∷◌, if◌then◌else◌, ◌&&◌,
}
use project_k_platform.Prelude.Eq.{◌==◌, string_eq}
use project_k_platform.Prelude.Result.{Result, ok, err, http_exception, other_error}
use project_k_platform.Events.{EventType, Payload, TradeEvent, metadata_of}
use project_k_platform.Events.Producer.{Message, publish}

-- A signal sent to a workflow of Temporal, or a message handed to Redpanda.
pub data Effect : Type 0 where
  signalled : String → String → Option String → Effect
  published : Message → Effect

-- What the endpoints take from outside: the outcome of a signal (none if it is sent, and else the
-- text of the exception), whether Redpanda accepts a message, the text of a UUID, the scan of a
-- payload, the encoding of an event, and whether a text is ASCII.
pub record Outside : Type 0 where
  pub signal : String → String → Option String → Option String
  pub accepts : Message → Bool
  pub show : ℕ → String
  pub scan_payload : Payload → Payload
  pub dumps : TradeEvent → String
  pub is_ascii : String → Bool

-- The time and the new identifiers of one call: of its response and of its event.
pub record Fresh : Type 0 where
  pub now : ℕ
  pub id : ℕ
  pub event_id : ℕ
  pub token : String

-- `verify_ops_api_key`; `secrets.compare_digest` raises on texts that are not ASCII.
unfoldable pub verify_ops_api_key : Outside → String → String → Result String
verify_ops_api_key out ops_api_key authorization =
    let token = slice authorization 7 (len authorization) in
    if starts_with authorization "Bearer "
    then (if out.is_ascii token && out.is_ascii ops_api_key
        then (if token == ops_api_key then ok token else err (http_exception 401 "Invalid API key"))
        else err (other_error "TypeError"))
    else err (http_exception 401 "Invalid authorization header")

-- `_emit_event`: an event that Redpanda does not accept is only logged.
unfoldable pub emit_event :
    Outside → Fresh → EventType → ℕ → String → Payload → Option String → List Effect
unfolding publish
emit_event out fresh event_type entity_id entity_type payload actor_id =
    if out.accepts message then published message ∷ [] else []
  where
    event : TradeEvent
    event = record {
      event_id = fresh.event_id;
      event_type = event_type;
      schema_version = "1.0.0";
      entity_type = entity_type;
      entity_id = entity_id;
      correlation_id = some entity_id;
      payload = payload;
      metadata = metadata_of "borrower-gateway" actor_id;
      occurred_at = fresh.now;
    }

    message : Message
    message = publish out.show out.scan_payload out.dumps event
