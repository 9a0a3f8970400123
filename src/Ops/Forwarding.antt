-- ===== src/Ops/Forwarding.antt =====
-- The events of ops_api.py against the consumer of services/frappe_sync that forwards events to
-- Frappe.
use project_k_platform.Prelude.{String, ◌≡◌, true, List, [], ◌∷◌, ◌++◌, if◌then◌else◌}
use project_k_platform.Prelude.Eq.{◌==◌, string_eq}
use project_k_platform.Prelude.Result.{Result}
use project_k_platform.Events.{value, TradeEvent}
use project_k_platform.Events.Consumer.{kafka_topic, Poll, message, Loaded, event, is_wanted}
use project_k_platform.Ops.{Effect, signalled, published, Outside, Fresh}
use project_k_platform.Ops.Endpoints.{OpsCall, VendorCall, Settings, serve_ops, serve_vendors}

-- What a consumer that is subscribed to a topic polls of the messages that were published.
abbrev pub polls : String → List Effect → List Poll
polls topic [] = []
polls topic (signalled w s a ∷ es) = polls topic es
polls topic (published m ∷ es) =
    let rest = polls topic es in if m.topic == topic then message m.value ∷ rest else rest

abbrev pub messages : List Effect → List String
messages [] = []
messages (signalled w s a ∷ es) = messages es
messages (published m ∷ es) = m.value ∷ messages es

-- The messages among the effects stand in the topic of the consumer, and are of types that it
-- forwards.
abbrev pub IsForwarded : (String → Loaded) → Effect → Type 0
IsForwarded loads (signalled w s a) = Unit
IsForwarded loads (published m) =
    (m.topic == kafka_topic ≡ true) × (is_wanted (loads m.value) ≡ true)

-- A request, with the new identifiers and the clock of its call.
pub data Request : Type 0 where
  ops : Fresh → String → OpsCall → Request
  vendors : Fresh → VendorCall → Request

module _ (loads : String → Loaded) (out : Outside)
    (reads : (e : TradeEvent) → loads (out.dumps e) ≡ event (value e.event_type)) where
  -- What a session's requests do outside, in order.
  abbrev pub effects : Settings → List Request → List Effect
  effects settings [] = []
  effects settings (ops fresh authorization call ∷ rs) =
      (serve_ops out settings fresh authorization call).1 ++ effects settings rs
  effects settings (vendors fresh call ∷ rs) =
      (serve_vendors out settings fresh call).1 ++ effects settings rs
