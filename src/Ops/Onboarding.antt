-- ===== src/Ops/Onboarding.antt =====
-- The onboarding of vendors and anchors in ops_api.py. None of these endpoints keeps a record.
use Prim.Native.String.{◌++◌}
use project_k_platform.Prelude.{ℕ, String, Option, none, some, List, [], ◌∷◌}
use project_k_platform.Prelude.Result.{Result, ok}
use project_k_platform.Events.{vendor_invited, vendor_onboarded, vendor_activated, text}
use project_k_platform.Ops.{Effect, Outside, Fresh, emit_event}

pub record VendorInviteRequest : Type 0 where
  pub name : String
  pub gstin : String
  pub phone : String
  pub udyam_number : Option String
  pub invited_by : String

pub record VendorInviteResponse : Type 0 where
  pub vendor_id : ℕ
  pub invite_token : String
  pub invite_link : String
  pub status : String

pub record AnchorOnboardRequest : Type 0 where
  pub name : String
  pub gstin : String
  pub sector : Option String
  pub region : Option String
  pub onboarded_by : String

pub record AnchorOnboardResponse : Type 0 where
  pub anchor_id : ℕ
  pub status : String
  pub message : String

pub record VendorRegisterRequest : Type 0 where
  pub name : String
  pub gstin : String
  pub phone : String
  pub udyam_number : Option String
  pub udyam_category : Option String

pub record VendorActivateRequest : Type 0 where
  pub invite_token : String
  pub name : Option String
  pub udyam_number : Option String
  pub udyam_category : Option String

pub record VendorRegisterResponse : Type 0 where
  pub vendor_id : ℕ
  pub status : String
  pub message : String

module _ (out : Outside) (fresh : Fresh) where
  -- `base_url` is the setting PLATFORM_BASE_URL.
  unfoldable pub invite_vendor :
      String → VendorInviteRequest → Result VendorInviteResponse × List Effect
  unfolding emit_event
  invite_vendor base_url r = (
    ok (record {
      vendor_id = fresh.id;
      invite_token = fresh.token;
      invite_link = base_url ++ "/invite/" ++ fresh.token;
      status = "invited";
    }),
    emit_event out fresh vendor_invited fresh.id "vendor"
        (("gstin", text r.gstin) ∷ ("invited_by", text r.invited_by) ∷ []) (some r.invited_by),
  )

  unfoldable pub onboard_anchor : AnchorOnboardRequest → Result AnchorOnboardResponse × List Effect
  onboard_anchor r = (
    ok (record {
      anchor_id = fresh.id;
      status = "onboarded";
      message = "Anchor '" ++ r.name ++ "' onboarded successfully.";
    }),
    [],
  )

  unfoldable pub register_vendor :
      VendorRegisterRequest → Result VendorRegisterResponse × List Effect
  unfolding emit_event
  register_vendor r = (
    ok (record {
      vendor_id = fresh.id;
      status = "active";
      message = "Registration successful. You can now apply for loans.";
    }),
    emit_event out fresh vendor_onboarded fresh.id "vendor"
        (("gstin", text r.gstin)
          ∷ ("name", text r.name)
          ∷ ("source", text "pwa_self_register")
          ∷ [])
        none,
  )

  unfoldable pub activate_vendor :
      VendorActivateRequest → Result VendorRegisterResponse × List Effect
  unfolding emit_event
  activate_vendor r = (
    ok (record {
      vendor_id = fresh.id;
      status = "active";
      message = "Account activated. You can now apply for loans.";
    }),
    emit_event out fresh vendor_activated fresh.id "vendor"
        (("source", text "pwa_invite_activation") ∷ []) none,
  )
