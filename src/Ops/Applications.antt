-- ===== src/Ops/Applications.antt =====
-- The two endpoints of ops_api.py that read applications, and `get_gateway_service` of service.py,
-- which makes the service that they read.
use project_k_platform.Prelude.{
  ℕ, String, Bool, false, not, Option, none, some, List, [], ◌∷◌, any, keep, map, length,
  if◌then◌else◌,
}
use project_k_platform.Prelude.Dict.{Dict}
use project_k_platform.Prelude.Eq.{◌==◌, string_eq}
use project_k_platform.Prelude.Result.{Result, ok, err, key_error, http_exception, other_error}
use project_k_platform.Gateway.Types.{LoanApplicationStatus}
use project_k_platform.Gateway.Memory.{Application, Service, empty, get_status}

-- What the endpoints fill in of OpsApplicationDetail.
pub record OpsApplicationDetail : Type 0 where
  pub application_id : ℕ
  pub vendor_gstin : String
  pub anchor_gstin : String
  pub amount_requested : Option ℕ
  pub status : String
  pub current_gate : Option String
  pub workflow_id : Option String
  pub ops_hold : Bool
  pub amount_sanctioned : Option ℕ
  pub created_at : Option ℕ
  pub updated_at : Option ℕ

pub record OpsApplicationList : Type 0 where
  pub applications : List OpsApplicationDetail
  pub total : ℕ

-- The service over a database keeps no dict of applications, and its `get_status` is a coroutine.
pub data GatewayService : Type 0 where
  in_memory : Service → GatewayService
  database : GatewayService

-- `get_gateway_service`, on the lower case of GATEWAY_USE_DB.
unfoldable pub get_gateway_service : String → GatewayService
get_gateway_service use_db = if use_db == "true" then database else in_memory empty

abbrev pub is_terminal : String → Bool
is_terminal status = any (λ t. t == status) ("closed" ∷ "rejected" ∷ "expired" ∷ [])

abbrev pub active_detail : Application → OpsApplicationDetail
active_detail app = record {
  application_id = app.application_id;
  vendor_gstin = app.vendor_gstin;
  anchor_gstin = app.anchor_gstin;
  amount_requested = some app.amount_requested;
  status = app.status;
  current_gate = some app.current_gate;
  workflow_id = some app.workflow_id;
  ops_hold = false;
  amount_sanctioned = none;
  created_at = some app.created_at;
  updated_at = some app.updated_at;
}

-- `service._applications.values()`
abbrev pub values : Dict ℕ Application → List Application
values [] = []
values ((k, a) ∷ m) = a ∷ values m

unfoldable pub list_active_applications : GatewayService → OpsApplicationList
list_active_applications (in_memory s) = record { applications = active; total = length active }
  where
    active : List OpsApplicationDetail
    active = map active_detail (keep (λ a. not (is_terminal a.status)) (values s.applications))
list_active_applications database = record { applications = []; total = 0 }

abbrev status_detail : LoanApplicationStatus → OpsApplicationDetail
status_detail s = record {
  application_id = s.application_id;
  vendor_gstin = "";
  anchor_gstin = "";
  amount_requested = s.amount_requested;
  status = s.status;
  current_gate = s.current_gate;
  workflow_id = none;
  ops_hold = false;
  amount_sanctioned = none;
  created_at = s.created_at;
  updated_at = s.updated_at;
}

-- A KeyError becomes 404; no other exception is caught.
abbrev as_detail : Result LoanApplicationStatus → Result OpsApplicationDetail
as_detail (ok s) = ok (status_detail s)
as_detail (err (key_error e)) = err (http_exception 404 e)
as_detail (err e) = err e

unfoldable pub get_application_detail : ℕ → GatewayService → Result OpsApplicationDetail
unfolding get_status
get_application_detail id (in_memory s) = as_detail (get_status id s)
get_application_detail id database = err (other_error "AttributeError")
