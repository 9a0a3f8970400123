-- ===== src/Tests/Webhook.antt =====
-- A delivery that gets through at the third attempt.
use project_k_platform.Prelude.{ℕ, zero, suc, Option, none, some}
use project_k_platform.Webhook.{FrappeWebhookClient}

abbrev client_one : FrappeWebhookClient
client_one = record {
  endpoint = "http://frappe/api";
  api_key = "k";
  api_secret = "s";
  webhook_secret = "w";
}

abbrev third_time : ℕ → Option ℕ
third_time zero = none
third_time (suc zero) = some 503
third_time (suc (suc n)) = some 200
