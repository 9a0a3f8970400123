-- ===== src/Tests/Wedge.antt =====
-- An eligible invoice, with an engine that passes everything.
use project_k_platform.Prelude.{String, ◌≡◌, ◌⊎◌, refl, Bool, true, Option, none, some, [], ◌∷◌}
use project_k_platform.Prelude.Result.{ok}
use project_k_platform.Rules.{Context, Output, ZenResult, dict_result, Engine, evaluate}
use project_k_platform.Wedge.{
  InvoiceIngestionRequest, InvoiceIngestionResponse, Kind1CheckResponse, ingest_invoice,
  check_kind1, evaluate_kind1, ingest_invoice-check_kind1,
}

abbrev passing : Output
passing = record { outcome = some "pass"; reason = none; matched_lender_ids = none }

abbrev zen : String → Context → Option ZenResult
zen content context = some (dict_result (some passing))

abbrev engine_one : Engine
engine_one = record {
  engines = ("d0-kind1-gate", "{}") ∷ [];
  hashes = ("d0-kind1-gate", "h") ∷ [];
  engine_version = "v";
}

abbrev matches : String → Bool
matches irn = true

abbrev request_one : InvoiceIngestionRequest
request_one = record {
  irn = "ab";
  anchor_gstin = "27BBBBB0000B1Z5";
  vendor_gstin = "29AAAAA0000A1Z5";
  amount = 100;
  currency = "INR";
  issue_date = 1;
  due_date = 2;
  ims_status = "accepted";
  repayment_routing_active = true;
}

abbrev response_one : InvoiceIngestionResponse
response_one = record {
  invoice_id = 1;
  irn = "ab";
  irn_valid = true;
  ims_status = "accepted";
  kind1_eligible = true;
  kind1_outcome = some "pass";
  kind1_reason = none;
}

ingested_one : (ingest_invoice matches zen (λ t. t) engine_one 1 request_one []).0 ≡ ok response_one
unfolding ingest_invoice evaluate_kind1 evaluate
ingested_one = refl

ingest_invoice-check_kind1_example :
    (matches "ab" ≡ true)
    × ((request_one.ims_status ≡ "accepted") ⊎ (request_one.ims_status ≡ "deemed_accepted"))
    × (request_one.repayment_routing_active ≡ true)
    × (answer : Kind1CheckResponse) × (check_kind1 matches zen
          (λ t. t)
          engine_one
          1
          (ingest_invoice matches zen (λ t. t) engine_one 1 request_one []).1
        ≡ ok answer)
    × (answer.outcome ≡ "pass")
ingest_invoice-check_kind1_example =
    ingest_invoice-check_kind1 matches zen (λ t. t) engine_one 1 request_one [] ingested_one refl
