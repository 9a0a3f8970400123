-- ===== src/Gateway/Memory.antt =====
-- BorrowerGatewayService of services/borrower_gateway/service.py, the in-memory backend. `app_id` is
-- the new uuid and `workflow_id` the text `loan-{app_id}`; `now` is the clock.
use project_k_platform.Prelude.{ℕ, String, Option, none, some, [], if◌then◌else◌, or_default}
use project_k_platform.Prelude.Dict.{Dict, lookup, insert}
use project_k_platform.Prelude.Eq.{◌==◌, string_eq, nat_eq}
use project_k_platform.Prelude.Result.{key_error, Result, ok, err}
use project_k_platform.Gateway.Types.{
  LoanApplicationRequest, LoanApplicationResponse, LoanApplicationStatus, initiated_message,
  existing_message,
}

-- The dict of one application. `extra` holds the keys that `update_gate` adds, the last two fields
-- among them.
pub record Application : Type 0 where
  pub application_id : ℕ
  pub invoice_id : ℕ
  pub vendor_gstin : String
  pub anchor_gstin : String
  pub amount_requested : ℕ
  pub status : String
  pub current_gate : String
  pub workflow_id : String
  pub created_at : ℕ
  pub updated_at : ℕ
  pub amount_sanctioned : Option ℕ
  pub lender_id : Option String
  pub selected_lender_id : Option String
  pub offer_data : Option String

pub record Service : Type 0 where
  pub applications : Dict ℕ Application
  pub idempotency_index : Dict String ℕ

abbrev pub empty : Service
empty = record { applications = []; idempotency_index = [] }

-- The keyword arguments of `update_gate` that the program reads or stores and that a new application
-- does not have; `none` is one not given. Arguments of other names go into the dict, where nothing
-- reads them.
pub record Extra : Type 0 where
  pub amount_sanctioned : Option ℕ
  pub lender_id : Option String
  pub selected_lender_id : Option String
  pub offer_data : Option String

-- The keyword arguments with the name of a key that a new application has: `app.update(extra)`
-- overwrites it.
pub record Overwritten : Type 0 where
  pub invoice_id : Option ℕ
  pub vendor_gstin : Option String
  pub anchor_gstin : Option String
  pub amount_requested : Option ℕ
  pub current_gate : Option String
  pub workflow_id : Option String
  pub created_at : Option ℕ
  pub updated_at : Option ℕ

abbrev pub nothing_overwritten : Overwritten
nothing_overwritten = record {
  invoice_id = none;
  vendor_gstin = none;
  anchor_gstin = none;
  amount_requested = none;
  current_gate = none;
  workflow_id = none;
  created_at = none;
  updated_at = none;
}

abbrev pub new_application : (ℕ → String) → ℕ → ℕ → LoanApplicationRequest → Application
new_application workflow_of now app_id request = record {
  application_id = app_id;
  invoice_id = request.invoice_id;
  vendor_gstin = request.vendor_gstin;
  anchor_gstin = request.anchor_gstin;
  amount_requested = request.amount_requested;
  status = "initiated";
  current_gate = "d0_kind1";
  workflow_id = workflow_of app_id;
  created_at = now;
  updated_at = now;
  amount_sanctioned = none;
  lender_id = none;
  selected_lender_id = none;
  offer_data = none;
}

abbrev pub initiated_response : (ℕ → String) → ℕ → LoanApplicationRequest → LoanApplicationResponse
initiated_response workflow_of app_id request = record {
  application_id = app_id;
  invoice_id = request.invoice_id;
  status = "initiated";
  workflow_id = some (workflow_of app_id);
  message = initiated_message;
}

-- An idempotency key that is None or empty is no key.
abbrev pub real_key : Option String → Option String
real_key none = none
real_key (some k) = if k == "" then none else some k

abbrev pub existing_response : ℕ → Option Application → Result LoanApplicationResponse
existing_response id none = err (key_error "application")
existing_response id (some a) = ok (record {
  application_id = id;
  invoice_id = a.invoice_id;
  status = a.status;
  workflow_id = some a.workflow_id;
  message = existing_message;
})

module _ (workflow_of : ℕ → String) where
  abbrev pub index_key : Option String → ℕ → Dict String ℕ → Dict String ℕ
  index_key none app_id index = index
  index_key (some k) app_id index = insert k app_id index

  abbrev pub create :
      ℕ → ℕ → LoanApplicationRequest → Service → Result LoanApplicationResponse × Service
  create now app_id request s = (
    ok (initiated_response workflow_of app_id request),
    record {
      applications = insert app_id (new_application workflow_of now app_id request) s.applications;
      idempotency_index = index_key (real_key request.idempotency_key) app_id s.idempotency_index;
    },
  )

  abbrev pub find_key : Option String → Dict String ℕ → Option ℕ
  find_key none index = none
  find_key (some k) index = lookup k index

  abbrev pub initiate_by :
      Option ℕ → ℕ → ℕ → LoanApplicationRequest → Service → Result LoanApplicationResponse × Service
  initiate_by (some id) now app_id request s = (existing_response id (lookup id s.applications), s)
  initiate_by none now app_id request s = create now app_id request s

  unfoldable pub initiate_application :
      ℕ → ℕ → LoanApplicationRequest → Service → Result LoanApplicationResponse × Service
  initiate_application now app_id request s =
      initiate_by (find_key (real_key request.idempotency_key) s.idempotency_index) now app_id
        request s

abbrev pub status_of : Application → LoanApplicationStatus
status_of a = record {
  application_id = a.application_id;
  status = a.status;
  current_gate = some a.current_gate;
  amount_requested = some a.amount_requested;
  amount_sanctioned = a.amount_sanctioned;
  lender_id = a.lender_id;
  created_at = some a.created_at;
  updated_at = some a.updated_at;
}

abbrev pub found_status : Option Application → Result LoanApplicationStatus
found_status none = err (key_error "Application not found")
found_status (some a) = ok (status_of a)

unfoldable pub get_status : ℕ → Service → Result LoanApplicationStatus
get_status id s = found_status (lookup id s.applications)

abbrev or_keep : {A : Type 0} → Option A → Option A → Option A
or_keep none old = old
or_keep (some a) old = some a

abbrev pub advance : ℕ → String → String → Overwritten → Extra → Application → Application
advance now gate status over extra a = record a {
  invoice_id = or_default over.invoice_id a.invoice_id;
  vendor_gstin = or_default over.vendor_gstin a.vendor_gstin;
  anchor_gstin = or_default over.anchor_gstin a.anchor_gstin;
  amount_requested = or_default over.amount_requested a.amount_requested;
  current_gate = or_default over.current_gate gate;
  status = status;
  workflow_id = or_default over.workflow_id a.workflow_id;
  created_at = or_default over.created_at a.created_at;
  updated_at = or_default over.updated_at now;
  amount_sanctioned = or_keep extra.amount_sanctioned a.amount_sanctioned;
  lender_id = or_keep extra.lender_id a.lender_id;
  selected_lender_id = or_keep extra.selected_lender_id a.selected_lender_id;
  offer_data = or_keep extra.offer_data a.offer_data;
}

abbrev pub update_found :
    Option Application
    → ℕ
    → ℕ
    → String
    → String
    → Overwritten
    → Extra
    → Service
    → Result {0} Unit × Service
update_found none now id gate status over extra s = (err (key_error "Application not found"), s)
update_found (some a) now id gate status over extra s = (
  ok tt,
  record s { applications = insert id (advance now gate status over extra a) s.applications },
)

unfoldable pub update_gate :
    ℕ → ℕ → String → String → Overwritten → Extra → Service → Result {0} Unit × Service
update_gate now id gate status over extra s =
    update_found (lookup id s.applications) now id gate status over extra s
