-- ===== src/Ops/Commands.antt =====
-- The four commands of ops_api.py on an application: hold, release, flag and escalate.
use Prim.Native.String.{◌++◌}
use project_k_platform.Prelude.{ℕ, String, Bool, true, Option, none, some, List, [], ◌∷◌}
use project_k_platform.Prelude.Result.{Result, ok, err, http_exception}
use project_k_platform.Events.{
  ops_hold_applied, ops_hold_released, ops_flag_added, ops_escalated, text,
}
use project_k_platform.Ops.{Effect, signalled, Outside, Fresh, emit_event}

pub record OpsHoldRequest : Type 0 where
  pub application_id : ℕ
  pub reason : String
  pub held_by : String

pub record OpsReleaseRequest : Type 0 where
  pub application_id : ℕ
  pub released_by : String

pub record OpsFlagRequest : Type 0 where
  pub application_id : ℕ
  pub flag_type : String
  pub note : String
  pub flagged_by : String

pub record OpsEscalateRequest : Type 0 where
  pub application_id : ℕ
  pub reason : String
  pub escalated_by : String

pub record OpsCommandResponse : Type 0 where
  pub success : Bool
  pub application_id : ℕ
  pub action : String
  pub message : String
  pub timestamp : ℕ

module _ (out : Outside) (fresh : Fresh) where
  -- `loan-{application_id}`
  abbrev pub workflow_id : ℕ → String
  workflow_id application_id = "loan-" ++ out.show application_id

  abbrev done : ℕ → String → String → OpsCommandResponse
  done application_id action message = record {
    success = true;
    application_id = application_id;
    action = action;
    message = message;
    timestamp = fresh.now;
  }

  -- What follows the attempt to signal: an exception becomes 422.
  abbrev after_signal :
      String
      → Option String
      → OpsCommandResponse
      → Effect
      → List Effect
      → Result OpsCommandResponse × List Effect
  after_signal failed none response sent events = (ok response, sent ∷ events)
  after_signal failed (some e) response sent events = (err (http_exception 422 (failed ++ e)), [])

  unfoldable pub ops_hold : OpsHoldRequest → Result OpsCommandResponse × List Effect
  unfolding emit_event
  ops_hold r =
      after_signal "Cannot hold application: "
        (out.signal (workflow_id r.application_id) "ops_hold_requested" (some r.reason))
        (done r.application_id "hold" ("Application held. Reason: " ++ r.reason))
        (signalled (workflow_id r.application_id) "ops_hold_requested" (some r.reason))
        (emit_event out fresh ops_hold_applied r.application_id "loan"
          (("reason", text r.reason) ∷ ("held_by", text r.held_by) ∷ []) (some r.held_by))

  unfoldable pub ops_release : OpsReleaseRequest → Result OpsCommandResponse × List Effect
  unfolding emit_event
  ops_release r =
      after_signal "Cannot release application: "
        (out.signal (workflow_id r.application_id) "ops_hold_released" none)
        (done r.application_id "release" "Application released from hold.")
        (signalled (workflow_id r.application_id) "ops_hold_released" none)
        (emit_event out fresh ops_hold_released r.application_id "loan"
          (("released_by", text r.released_by) ∷ []) (some r.released_by))

  unfoldable pub ops_flag : OpsFlagRequest → Result OpsCommandResponse × List Effect
  unfolding emit_event
  ops_flag r = (
    ok (done r.application_id "flag" ("Flag '" ++ r.flag_type ++ "' added: " ++ r.note)),
    emit_event out fresh ops_flag_added r.application_id "loan"
        (("flag_type", text r.flag_type)
          ∷ ("note", text r.note)
          ∷ ("flagged_by", text r.flagged_by)
          ∷ [])
        (some r.flagged_by),
  )

  unfoldable pub ops_escalate : OpsEscalateRequest → Result OpsCommandResponse × List Effect
  unfolding emit_event
  ops_escalate r = (
    ok (done r.application_id "escalate" ("Escalated to collections: " ++ r.reason)),
    emit_event out fresh ops_escalated r.application_id "loan"
        (("reason", text r.reason) ∷ ("escalated_by", text r.escalated_by) ∷ [])
        (some r.escalated_by),
  )
