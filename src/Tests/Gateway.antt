-- ===== src/Tests/Gateway.antt =====
-- Loan applications with and without an idempotency key, at the gateway and in the sandbox.
use project_k_platform.Prelude.{
  ℕ, zero, suc, String, ◌≡◌, ◌≢◌, refl, true, false, none, some, List, [], ◌∷◌, arith, eq_iff,
}
use project_k_platform.Prelude.Eq.{string_eq}
use project_k_platform.Prelude.Result.{ok, err, other_error}
use project_k_platform.Db.{LoanRow}
use project_k_platform.Gateway.Types.{LoanApplicationRequest, LoanApplicationResponse}
use project_k_platform.Gateway.Memory
use project_k_platform.Gateway.Memory.{
  Service, Extra, nothing_overwritten, empty, initiated_response,
}
use project_k_platform.Gateway.Table
use project_k_platform.Gateway.Idempotency.{
  Op, initiate, update, apply_all, initiate_application-idempotent,
}
use project_k_platform.Gateway.Backends.{Same, initiate_application-backends}
use project_k_platform.Gateway.Progress.{update_gate-backends}
use project_k_platform.Sandbox.Clients.{ConsentState, sandbox_aa, sandbox_consent}
use project_k_platform.Orchestrator.Types.{FetchAaDataInput}
use project_k_platform.Orchestrator.Activities.{fetch_aa_data, no_data}

abbrev workflow_of : ℕ → String
workflow_of zero = "loan-0"
workflow_of (suc n) = "loan-n"

abbrev request_one : LoanApplicationRequest
request_one = record {
  invoice_id = 7;
  vendor_gstin = "29AAAAA0000A1Z5";
  anchor_gstin = "27BBBBB0000B1Z5";
  amount_requested = 45000000;
  idempotency_key = some "k-1";
}

-- The same key with another invoice.
abbrev request_two : LoanApplicationRequest
request_two = record request_one { invoice_id = 8 }

abbrev no_extra : Extra
no_extra = record {
  amount_sanctioned = none;
  lender_id = none;
  selected_lender_id = none;
  offer_data = none;
}

abbrev other_request : LoanApplicationRequest
other_request = record request_one { idempotency_key = some "k-2" }

-- Between the two requests another application is made and the first is advanced.
abbrev calls_between : List Op
calls_between =
    initiate 110 5 other_request ∷ update 120 1 "d1_data_sufficiency" "in_progress" no_extra ∷ []

initiate_application-idempotent_example :
    let s' =
      apply_all workflow_of calls_between
        (Memory.initiate_application workflow_of 100 1 request_one empty).1 in
    (r' : LoanApplicationResponse) × (Memory.initiate_application workflow_of 130 9 request_two s'
      ≡ (ok r', s'))
    × (r'.application_id ≡ 1)
    × (r'.workflow_id ≡ some "loan-n")
unfolding Memory.initiate_application apply_all
initiate_application-idempotent_example =
    initiate_application-idempotent workflow_of [] calls_between 100 130 1 9 request_one request_two
      "k-1" refl refl refl

Same-empty : Same empty []
Same-empty = record { apps = λ id. refl; keys = λ k n. refl; found = λ k r h. cc }

key_one : request_one.idempotency_key ≢ some ""
key_one e = ground (arith, eq_iff "k-1" "")

-- The second request is made to both backends after the first.
initiate_application-backends_example :
    let t : Service = (Memory.initiate_application workflow_of 100 1 request_one empty).1 in
    let rows : List LoanRow = (Table.initiate_application workflow_of 100 1 request_one []).1 in
    ((Memory.initiate_application workflow_of 130 9 request_two t).0
      ≡ (Table.initiate_application workflow_of 130 9 request_two rows).0)
    × Same
        (Memory.initiate_application workflow_of 130 9 request_two t).1
        (Table.initiate_application workflow_of 130 9 request_two rows).1
unfolding Memory.initiate_application Table.initiate_application
initiate_application-backends_example =
    initiate_application-backends workflow_of 130 9 request_two _ _
      (initiate_application-backends workflow_of 100 1 request_one empty [] Same-empty refl refl
        key_one refl).1
      refl refl key_one refl

update_gate-backends_example :
    let s : Service = (Memory.initiate_application workflow_of 100 1 request_one empty).1 in
    let rows : List LoanRow = (Table.initiate_application workflow_of 100 1 request_one []).1 in
    ((Memory.update_gate 120 1 "d1" "in_progress" nothing_overwritten no_extra s).0
      ≡ (Table.update_gate 120 1 "d1" "in_progress" no_extra rows).0)
    × Same
        (Memory.update_gate 120 1 "d1" "in_progress" nothing_overwritten no_extra s).1
        (Table.update_gate 120 1 "d1" "in_progress" no_extra rows).1
unfolding Memory.initiate_application Table.initiate_application
update_gate-backends_example =
    update_gate-backends 120 1 "d1" "in_progress" no_extra _ _
      (initiate_application-backends workflow_of 100 1 request_one empty [] Same-empty refl refl
        key_one refl).1
      refl refl refl

-- The table rounds an amount to hundredths, and does not hold a longer GSTIN.
rounded : Table.numeric 45006000 ≡ some 45010000
rounded = refl

too_long :
    Table.initiate_application workflow_of 100 1
      (record request_one { vendor_gstin = "29AAAAA0000A1Z5X" })
      []
    ≡ (err (other_error "DataError"), [])
unfolding Table.initiate_application
too_long = refl

-- A call that changes nothing keeps the time of the last update in the table, and not in memory.
unchanged_row :
    let rows : List LoanRow = (Table.initiate_application workflow_of 100 1 request_one []).1 in
    Table.update_gate 120 1 "d0_kind1" "initiated" no_extra rows ≡ (ok tt, rows)
unfolding Table.initiate_application Table.update_gate
unchanged_row = refl

abbrev fetch_one : FetchAaDataInput
fetch_one = record {
  loan_application_id = "app-1";
  vendor_gstin = "29AAAAA0000A1Z5";
  data_principal_id = "dp-1";
}

abbrev no_links : ConsentState
no_links = record { scenario = none; linked_consents = [] }

sandbox_pending :
    fetch_aa_data (ok (sandbox_consent true, no_links)) (ok (sandbox_aa false "00ff", [])) fetch_one
    ≡ ok no_data
unfolding fetch_aa_data sandbox_aa sandbox_consent
sandbox_pending = refl
