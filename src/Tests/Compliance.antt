-- ===== src/Tests/Compliance.antt =====
-- A breach rule with two events, a data subject request, and a configuration of two policies.
use project_k_platform.Prelude.{
  ℕ, ◌≡◌, refl, true, false, some, List, [], ◌∷◌, ◌++◌, leb, count_if, arith,
}
use text.Mathlib.TextLemmas.{append_cancel_left, append_cancel_right}
use project_k_platform.Prelude.Eq.{◌==◌, string_eq, beq_ne}
use project_k_platform.Prelude.{◌≢◌, String, Option, none, if◌then◌else◌}
use project_k_platform.Compliance.Status.{dsr_workflow}
use project_k_platform.Prelude.Result.{ok}
use project_k_platform.Db.Retention.{enforce_category}
use project_k_platform.Compliance.Rights.{DsrInput, submit_dsr, Answers, submit_dsr-fulfil}
use project_k_platform.Compliance.Retention.{
  Policy, PolicyResult, enforce_retention, enforce_policy,
}
use project_k_platform.Compliance.Breach.{
  BreachInput, Rule, index_rules, detect_breaches, confirmed,
}
use project_k_platform.Compliance.Breach.Window.{
  SlidingWindow, add, add_all, is_recent, add-after_add_all,
}
use project_k_platform.Compliance.Breach.Consumer.{
  Moment, Message, event, Windows, make_windows, consume, map_event_to_rule, IsConfigured,
  consume-confirmed, consume-IsConfigured,
}
use project_k_platform.Tests.Db.{db_one}

abbrev rule_one : Rule
rule_one = record { rule = "failed_auth"; threshold = 1; window_minutes = 5 }

abbrev moment_one : Moment
moment_one = record { added = 100; logged = 100; counted = 100; starts = true }

abbrev windows_one : Windows
windows_one = ("failed_auth", record { window_seconds = 300; threshold = 1; events = [] }) ∷ []

abbrev breach_one : BreachInput
breach_one = record {
  rule = "failed_auth";
  event_count = 1;
  window_minutes = 5;
  actor_id = "ops-1";
}

abbrev window_one : SlidingWindow
window_one = record { window_seconds = 300; threshold = 2; events = [] }

add-after_add_all_example :
    (add 400 (add_all (50 ∷ 200 ∷ []) window_one)).0
    ≡ leb 2 (count_if (is_recent 400 300) ((50 ∷ 200 ∷ []) ++ 400 ∷ []))
add-after_add_all_example =
    add-after_add_all 400 (50 ∷ 200 ∷ []) window_one refl (omega arith, (omega arith, tt))

IsConfigured-one : IsConfigured (index_rules (rule_one ∷ []) []) windows_one
unfolding make_windows
IsConfigured-one = (consume-IsConfigured (index_rules (rule_one ∷ []) [])).0

breaches_one :
    (consume
      (index_rules (rule_one ∷ []) [])
      moment_one
      (event "auth_failed" "ops-1")
      windows_one).0
    ≡ some breach_one
unfolding consume map_event_to_rule
breaches_one = refl

consume-confirmed_example : (t : ℕ) × (detect_breaches (rule_one ∷ []) breach_one ≡ confirmed t 1)
consume-confirmed_example =
    consume-confirmed (rule_one ∷ []) moment_one "auth_failed" "ops-1" windows_one refl refl
      IsConfigured-one breaches_one

consume-IsConfigured_example :
    let rules = index_rules (rule_one ∷ []) [] in
    IsConfigured rules (make_windows rules)
    × ((m : Moment) (msg : Message) (ws : Windows)
        → IsConfigured rules ws
        → IsConfigured rules (consume rules m msg ws).1)
consume-IsConfigured_example = consume-IsConfigured (index_rules (rule_one ∷ []) [])

abbrev erasure_one : DsrInput
erasure_one = record { request_id = "r-1"; data_principal_id = "29A"; right_type = "erasure" }

submitted_one : (submit_dsr "r-1" 100 true "29A" "erasure").1 ≡ some erasure_one
unfolding submit_dsr
submitted_one = refl

submit_dsr-fulfil_example : Answers (λ t. t) 200 erasure_one db_one
submit_dsr-fulfil_example =
    submit_dsr-fulfil (λ t. t) "r-1" "29A" "erasure" 100 200 db_one submitted_one

abbrev policies : List Policy
policies =
    record { data_category = "loan_application"; retention_days = 365 }
    ∷ record { data_category = "marketing"; retention_days = 30 }
    ∷ []

abbrev results : List PolicyResult
results =
    record { category = "loan_application"; action = "enforced"; records_affected = 0 }
    ∷ record { category = "marketing"; action = "no_handler"; records_affected = 0 }
    ∷ []

enforced_one : (enforce_retention (λ t. t) 100 false policies db_one).0 ≡ ok results
unfolding enforce_retention enforce_policy enforce_category
enforced_one = refl

abbrev described : String → Option String
described id = if id == "dsr-erasure-r-1" then some "RUNNING" else none

response_ok :
    (submit_dsr "r-1" 100 true "29A" "erasure").0
    ≡ ok (record {
      request_id = "r-1";
      status = "submitted";
      sla_deadline = 259300;
      workflow_id = "dsr-erasure-r-1";
    })
unfolding submit_dsr
response_ok = refl

undescribed : (t : String) → t ≢ "erasure" → described (dsr_workflow t "r-1") ≡ none
undescribed t n = rw (
    beq_ne (λ (e : dsr_workflow t "r-1" ≡ dsr_workflow "erasure" "r-1").
      n (append_cancel_right t "erasure" "-r-1" (append_cancel_left "dsr-" _ _ e))))
