-- ===== src/Tests/Ops.antt =====
-- The operations' endpoints on concrete requests, and the witnesses of their theorems.
use text.Mathlib.Text.{starts_with}
use project_k_platform.Prelude.{String, ◌≡◌, ◌⊎◌, refl, true, false, none, List, [], ◌∷◌, map}
use project_k_platform.Prelude.Eq.{string_eq}
use project_k_platform.Prelude.Result.{is_ok}
use project_k_platform.Events.{value}
use project_k_platform.Events.Consumer.{
  Poll, stopped, nothing, kafka_error, message, Loaded, event, Delivered, dead_letter, start,
  start-payloads,
}
use project_k_platform.Ops.{Outside, Fresh}
use project_k_platform.Ops.Endpoints.{OpsCall, hold, VendorCall, register, Settings, serve_ops}
use project_k_platform.Ops.Forwarding.{Request, ops, vendors, messages}
use project_k_platform.Ops.Authorization.{bearer_token, serve_ops_authorized}
use project_k_platform.Tests.Callback.{show}

-- A message's value is the text of its type.
abbrev loads : String → Loaded
loads raw = event raw

abbrev undelivered : String → String → Delivered
undelivered event_type raw = dead_letter

abbrev polled : List Poll
polled =
    nothing
    ∷ message "loan.closed"
    ∷ kafka_error
    ∷ message "invoice.captured"
    ∷ message "ops.escalated"
    ∷ stopped
    ∷ message "loan.rejected"
    ∷ []

start-payloads_example :
    map (λ d. d.payload) (start loads undelivered polled) ≡ "loan.closed" ∷ "ops.escalated" ∷ []
start-payloads_example = start-payloads loads undelivered polled

abbrev outside : Outside
outside = record {
  signal = λ wid name arg. none;
  accepts = λ m. true;
  show = show;
  scan_payload = λ p. p;
  dumps = λ e. value e.event_type;
  is_ascii = λ s. true;
}

abbrev fresh : Fresh
fresh = record { now = 100; id = 9; event_id = 10; token = "t" }

abbrev settings : Settings
settings = record {
  ops_api_key = "key";
  platform_base_url = "http://localhost:8000";
  gateway_use_db = "false";
}

abbrev hold_one : OpsCall
hold_one = hold (record { application_id = 1; reason = "check"; held_by = "ops" })

abbrev register_one : VendorCall
register_one = register (record {
  name = "V";
  gstin = "29AAAAA0000A1Z5";
  phone = "9999999999";
  udyam_number = none;
  udyam_category = none;
})

abbrev session : List Request
session =
    ops fresh "Bearer key" hold_one
    ∷ ops fresh "Bearer kex" hold_one
    ∷ vendors fresh register_one
    ∷ []

hold_one_published :
    messages (serve_ops outside settings fresh "Bearer key" hold_one).1 ≡ "ops.hold_applied" ∷ []
unfolding serve_ops value
hold_one_published = refl

serve_ops_authorized_example :
    ((starts_with "Bearer kex" "Bearer " ≡ true) × (bearer_token "Bearer kex" ≡ "key"))
    ⊎ ((is_ok (serve_ops outside settings fresh "Bearer kex" hold_one).0 ≡ false)
        × ((serve_ops outside settings fresh "Bearer kex" hold_one).1 ≡ []))
serve_ops_authorized_example = serve_ops_authorized outside settings fresh "Bearer kex" hold_one
