-- ===== src/Ops/Endpoints.antt =====
-- The routes of ops_api.py: every route under /ops depends on the API key, those under /vendors do
-- not. Header and body are as FastAPI has read them.
use project_k_platform.Prelude.{ℕ, String, List, []}
use project_k_platform.Prelude.Result.{Result, ok, err}
use project_k_platform.Ops.{Effect, Outside, Fresh, verify_ops_api_key}
use project_k_platform.Ops.Commands.{
  OpsHoldRequest, OpsReleaseRequest, OpsFlagRequest, OpsEscalateRequest, OpsCommandResponse,
  ops_hold, ops_release, ops_flag, ops_escalate,
}
use project_k_platform.Ops.Onboarding.{
  VendorInviteRequest, VendorInviteResponse, AnchorOnboardRequest, AnchorOnboardResponse,
  VendorRegisterRequest, VendorActivateRequest, VendorRegisterResponse, invite_vendor,
  onboard_anchor, register_vendor, activate_vendor,
}
use project_k_platform.Ops.Applications.{
  OpsApplicationList, OpsApplicationDetail, get_gateway_service, list_active_applications,
  get_application_detail,
}

-- The routes under /ops, and those under /vendors.
pub data OpsCall : Type 0 where
  hold : OpsHoldRequest → OpsCall
  release : OpsReleaseRequest → OpsCall
  flag : OpsFlagRequest → OpsCall
  escalate : OpsEscalateRequest → OpsCall
  active : OpsCall
  detail : ℕ → OpsCall
  invite : VendorInviteRequest → OpsCall
  onboard : AnchorOnboardRequest → OpsCall

pub data VendorCall : Type 0 where
  register : VendorRegisterRequest → VendorCall
  activate : VendorActivateRequest → VendorCall

pub data Response : Type 0 where
  commanded : OpsCommandResponse → Response
  listed : OpsApplicationList → Response
  detailed : OpsApplicationDetail → Response
  invited : VendorInviteResponse → Response
  onboarded : AnchorOnboardResponse → Response
  registered : VendorRegisterResponse → Response

-- The settings OPS_API_KEY, PLATFORM_BASE_URL and GATEWAY_USE_DB.
pub record Settings : Type 0 where
  pub ops_api_key : String
  pub platform_base_url : String
  pub gateway_use_db : String

abbrev as_response :
    {A : Type 0} → (A → Response) → Result A × List Effect → Result Response × List Effect
as_response f (ok a, effects) = (ok (f a), effects)
as_response f (err e, effects) = (err e, effects)

abbrev as_answer : {A : Type 0} → (A → Response) → Result A → Result Response
as_answer f (ok a) = ok (f a)
as_answer f (err e) = err e

module _ (out : Outside) (settings : Settings) (fresh : Fresh) where
  unfoldable pub handle : OpsCall → Result Response × List Effect
  unfolding ops_hold ops_release ops_flag ops_escalate invite_vendor onboard_anchor
      list_active_applications get_application_detail
  handle (hold r) = as_response commanded (ops_hold out fresh r)
  handle (release r) = as_response commanded (ops_release out fresh r)
  handle (flag r) = as_response commanded (ops_flag out fresh r)
  handle (escalate r) = as_response commanded (ops_escalate out fresh r)
  handle active =
      (ok (listed (list_active_applications (get_gateway_service settings.gateway_use_db))), [])
  handle (detail id) = (
    as_answer detailed (get_application_detail id (get_gateway_service settings.gateway_use_db)),
    [],
  )
  handle (invite r) = as_response invited (invite_vendor out fresh settings.platform_base_url r)
  handle (onboard r) = as_response onboarded (onboard_anchor out fresh r)

  unfoldable pub if_authorized : Result String → OpsCall → Result Response × List Effect
  unfolding handle
  if_authorized (err e) call = (err e, [])
  if_authorized (ok token) call = handle call

  -- A route under /ops, with the Authorization header of the request.
  unfoldable pub serve_ops : String → OpsCall → Result Response × List Effect
  unfolding verify_ops_api_key if_authorized
  serve_ops authorization call =
      if_authorized (verify_ops_api_key out settings.ops_api_key authorization) call

  unfoldable pub serve_vendors : VendorCall → Result Response × List Effect
  unfolding register_vendor activate_vendor
  serve_vendors (register r) = as_response registered (register_vendor out fresh r)
  serve_vendors (activate r) = as_response registered (activate_vendor out fresh r)
