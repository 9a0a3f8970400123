-- ===== src/Tests/Rules.antt =====
-- An engine with one ruleset, and a scenario with two steps.
use project_k_platform.Prelude.{String, ◌≡◌, refl, true, Option, none, some, [], ◌∷◌}
use project_k_platform.Prelude.Dict.{lookup}
use project_k_platform.Prelude.Eq.{string_eq}
use project_k_platform.Prelude.Result.{ok}
use project_k_platform.Rules.{
  Context, Output, ZenResult, dict_result, EvaluationResult, Engine, new_engine, evaluate,
  get_ruleset_hash, result_output,
}
use project_k_platform.Rules.Content.{built, evaluate-content}
use project_k_platform.Sandbox.Scenario.{Scenario}

abbrev passing : Output
passing = record { outcome = some "pass"; reason = none; matched_lender_ids = none }

abbrev zen : String → Context → Option ZenResult
zen content context = some (dict_result (some passing))

abbrev engine_one : Engine
engine_one = new_engine zen (λ t. t) true (("d0-kind1-gate", "{}") ∷ [])

abbrev facts : Context
facts = ("invoice_amount", "1000") ∷ []

abbrev result_one : EvaluationResult
result_one = record {
  output = passing;
  ruleset_hash = "{}";
  engine_version = "zen-engine-python";
  ruleset_name = "d0-kind1-gate";
}

evaluate_one : evaluate zen (λ t. t) engine_one "d0-kind1-gate" facts ≡ ok result_one
unfolding evaluate new_engine
evaluate_one = refl

evaluate-content_example :
    (content : String) × (answer : ZenResult) × (lookup "d0-kind1-gate" engine_one.engines
      ≡ some content)
    × (zen content facts ≡ some answer)
    × (passing ≡ result_output answer)
    × ("{}" ≡ content)
    × (get_ruleset_hash zen (λ t. t) engine_one "d0-kind1-gate" ≡ ok "{}")
evaluate-content_example =
    evaluate-content zen (λ t. t) engine_one "d0-kind1-gate" facts
      (built true (("d0-kind1-gate", "{}") ∷ [])) evaluate_one

abbrev scenario_one : Scenario String
scenario_one = record {
  id = "denied";
  steps =
      record { action = "consent_check"; call_number = some 2; response = some "denied" }
      ∷ record { action = "consent_check"; call_number = none; response = some "granted" }
      ∷ [];
}
