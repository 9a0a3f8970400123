-- ===== src/Events.antt =====
-- libs/common/events.py and event_producer.py: the types of trade events, the envelope of an event, and
-- the message that the producer hands to Redpanda. A UUID and a time are numbers, as in the gateway.
pub mod Producer
pub mod Consumer
use project_k_platform.Prelude.{ℕ, String, Bool, Option, none, some, List, [], ◌∷◌}
use project_k_platform.Prelude.Dict.{Dict}

pub data EventType : Type 0 where
  anchor_onboarded vendor_onboarded vendor_gstin_validated repayment_routing_activated : EventType
  invoice_captured invoice_irn_validated invoice_ims_status_updated : EventType
  invoice_kind1_attested : EventType
  loan_application_created loan_aa_consent_requested loan_aa_data_received : EventType
  loan_decision_evaluated loan_derived_computed loan_lender_matched : EventType
  loan_submitted_to_lender : EventType
  loan_offer_received loan_offer_accepted loan_disbursed loan_repayment_observed : EventType
  loan_closed : EventType
  loan_rejected ops_hold_applied ops_hold_released ops_flag_added ops_escalated : EventType
  vendor_invited : EventType
  vendor_activated anchor_routing_updated ddp_package_issued ddp_vc_issued : EventType
  dpdp_consent_checked : EventType
  dpdp_consent_denied dpdp_consent_revoked dpdp_dsr_submitted dpdp_dsr_fulfilled : EventType
  dpdp_erasure_completed dpdp_breach_detected dpdp_breach_notified : EventType
  dpdp_retention_enforced : EventType

-- The member's text.
unfoldable pub value : EventType → String
value anchor_onboarded = "anchor.onboarded"
value vendor_onboarded = "vendor.onboarded"
value vendor_gstin_validated = "vendor.gstin_validated"
value repayment_routing_activated = "anchor.repayment_routing_activated"
value invoice_captured = "invoice.captured"
value invoice_irn_validated = "invoice.irn_validated"
value invoice_ims_status_updated = "invoice.ims_status_updated"
value invoice_kind1_attested = "invoice.kind1_attested"
value loan_application_created = "loan.application_created"
value loan_aa_consent_requested = "loan.aa_consent_requested"
value loan_aa_data_received = "loan.aa_data_received"
value loan_decision_evaluated = "loan.decision_evaluated"
value loan_derived_computed = "loan.derived_computed"
value loan_lender_matched = "loan.lender_matched"
value loan_submitted_to_lender = "loan.submitted_to_lender"
value loan_offer_received = "loan.offer_received"
value loan_offer_accepted = "loan.offer_accepted"
value loan_disbursed = "loan.disbursed"
value loan_repayment_observed = "loan.repayment_observed"
value loan_closed = "loan.closed"
value loan_rejected = "loan.rejected"
value ops_hold_applied = "ops.hold_applied"
value ops_hold_released = "ops.hold_released"
value ops_flag_added = "ops.flag_added"
value ops_escalated = "ops.escalated"
value vendor_invited = "vendor.invited"
value vendor_activated = "vendor.activated"
value anchor_routing_updated = "anchor.routing_updated"
value ddp_package_issued = "ddp.package_issued"
value ddp_vc_issued = "ddp.vc_issued"
value dpdp_consent_checked = "dpdp.consent_checked"
value dpdp_consent_denied = "dpdp.consent_denied"
value dpdp_consent_revoked = "dpdp.consent_revoked"
value dpdp_dsr_submitted = "dpdp.dsr_submitted"
value dpdp_dsr_fulfilled = "dpdp.dsr_fulfilled"
value dpdp_erasure_completed = "dpdp.erasure_completed"
value dpdp_breach_detected = "dpdp.breach_detected"
value dpdp_breach_notified = "dpdp.breach_notified"
value dpdp_retention_enforced = "dpdp.retention_enforced"

pub data PayloadValue : Type 0 where
  text : String → PayloadValue
  flag : Bool → PayloadValue

abbrev pub Payload : Type 0
Payload = Dict String PayloadValue

pub record EventMetadata : Type 0 where
  pub source_service : String
  pub trace_id : Option String
  pub workflow_id : Option String
  pub workflow_run_id : Option String
  pub actor_id : Option String
  pub idempotency_key : Option String

pub record TradeEvent : Type 0 where
  pub event_id : ℕ
  pub event_type : EventType
  pub schema_version : String
  pub entity_type : String
  pub entity_id : ℕ
  pub correlation_id : Option ℕ
  pub payload : Payload
  pub metadata : EventMetadata
  pub occurred_at : ℕ

-- `EventMetadata(source_service=..., actor_id=...)`
abbrev pub metadata_of : String → Option String → EventMetadata
metadata_of source_service actor_id = record {
  source_service = source_service;
  trace_id = none;
  workflow_id = none;
  workflow_run_id = none;
  actor_id = actor_id;
  idempotency_key = none;
}
