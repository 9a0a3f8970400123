-- ===== src/Events/Consumer.antt =====
-- FrappeSyncConsumer of services/frappe_sync/consumer.py: the loop that forwards events to Frappe. What
-- the consumer polls is a list, in which `stopped` stands where the loop finds that it was stopped.
use project_k_platform.Prelude.{
  String, ◌≡◌, refl, Bool, false, List, [], ◌∷◌, ◌++◌, any, keep, map, if◌then◌else◌, Bool-cases,
  inl, inr,
}
use project_k_platform.Prelude.Eq.{◌==◌, string_eq}

-- `KAFKA_TOPIC` at its default.
abbrev pub kafka_topic : String
kafka_topic = "ocen.trade-events.v1"

abbrev pub events_to_forward : List String
events_to_forward =
    "loan.application_created" ∷ "loan.decision_evaluated" ∷ "loan.submitted_to_lender"
    ∷ "loan.offer_received" ∷ "loan.offer_accepted" ∷ "loan.disbursed" ∷ "loan.repayment_observed"
    ∷ "loan.closed" ∷ "loan.rejected" ∷ "vendor.onboarded" ∷ "vendor.invited" ∷ "vendor.activated"
    ∷ "anchor.onboarded" ∷ "ops.hold_applied" ∷ "ops.hold_released" ∷ "ops.flag_added"
    ∷ "ops.escalated" ∷ []

abbrev pub is_forwarded : String → Bool
is_forwarded event_type = any (λ t. t == event_type) events_to_forward

pub data Poll : Type 0 where
  stopped nothing partition_eof kafka_error : Poll
  message : String → Poll

-- What reading a message's value gives: the event's type ("" if it has none), invalid JSON, or
-- another exception.
pub data Loaded : Type 0 where
  event : String → Loaded
  invalid_json : Loaded
  raised : Loaded

-- What `deliver` comes to: true, false, or an exception.
pub data Delivered : Type 0 where
  delivered dead_letter failed : Delivered

-- A call of `deliver`, and what it came to.
pub record Delivery : Type 0 where
  pub event_type : String
  pub payload : String
  pub outcome : Delivered

-- The messages polled before the consumer is stopped.
abbrev pub consumed : List Poll → List String
consumed [] = []
consumed (stopped ∷ polls) = []
consumed (message raw ∷ polls) = raw ∷ consumed polls
consumed (nothing ∷ polls) = consumed polls
consumed (partition_eof ∷ polls) = consumed polls
consumed (kafka_error ∷ polls) = consumed polls

abbrev pub is_wanted : Loaded → Bool
is_wanted (event event_type) = is_forwarded event_type
is_wanted _ = false

module _ (loads : String → Loaded) (deliver : String → String → Delivered) where
  -- The body of the inner `try`: no exception leaves it.
  abbrev pub forward : String → Loaded → List Delivery
  forward raw invalid_json = []
  forward raw raised = []
  forward raw (event event_type) =
      if is_forwarded event_type
      then record { event_type = event_type; payload = raw; outcome = deliver event_type raw } ∷ []
      else []

  -- `start`
  unfoldable pub start : List Poll → List Delivery
  start [] = []
  start (stopped ∷ polls) = []
  start (nothing ∷ polls) = start polls
  start (partition_eof ∷ polls) = start polls
  start (kafka_error ∷ polls) = start polls
  start (message raw ∷ polls) = forward raw (loads raw) ++ start polls

  forward-payload :
      (raw : String) (l : Loaded) (ds : List Delivery) (rest : List String)
      → map (λ d. d.payload) ds ≡ rest
      → map (λ d. d.payload) (forward raw l ++ ds) ≡ (if is_wanted l then raw ∷ rest else rest)
  forward-payload raw invalid_json ds rest h = h
  forward-payload raw raised ds rest h = h
  forward-payload raw (event event_type) ds rest h = elim (Bool-cases (is_forwarded event_type)) [
    | inl e ↦ rw (e, h) refl
    | inr e ↦ rw (e, h) refl
  ]

  -- Whatever is polled and however deliveries end, the payloads handed to `deliver` are the messages
  -- polled before the stop whose event type is one to forward, each once and in their order: empty
  -- polls, errors of Kafka, unreadable messages and failed deliveries neither stop the loop nor
  -- lose another message, and a delivery that fails is not tried again.
  pub start-payloads :
      (polls : List Poll)
      → map (λ d. d.payload) (start polls) ≡ keep (λ raw. is_wanted (loads raw)) (consumed polls)
  unfolding start
  start-payloads [] = refl
  start-payloads (stopped ∷ polls) = refl
  start-payloads (nothing ∷ polls) = start-payloads polls
  start-payloads (partition_eof ∷ polls) = start-payloads polls
  start-payloads (kafka_error ∷ polls) = start-payloads polls
  start-payloads (message raw ∷ polls) =
      forward-payload raw (loads raw) (start polls) _ (start-payloads polls)
