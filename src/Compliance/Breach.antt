-- ===== src/Compliance/Breach.antt =====
-- `detect_breaches`, `notify_dpbi`, `notify_affected_principals` and BreachDetectionWorkflow, with the
-- consumer of services/breach_consumer that starts it.
pub mod Window
pub mod Consumer
use project_k_platform.Prelude.{
  ℕ, String, ◌≡◌, refl, Bool, true, false, Option, none, some, List, [], ◌∷◌, leb, if◌then◌else◌,
}
use project_k_platform.Prelude.Dict.{Dict, lookup, insert}
use project_k_platform.Prelude.Eq.{◌==◌, string_eq}

pub record BreachInput : Type 0 where
  pub rule : String
  pub event_count : ℕ
  pub window_minutes : ℕ
  pub actor_id : String

-- An entry of `breach.detection_rules`.
pub record Rule : Type 0 where
  pub rule : String
  pub threshold : ℕ
  pub window_minutes : ℕ

-- `{r["rule"]: r for r in …}`: a later entry replaces an earlier one of the same name.
abbrev pub index_rules : List Rule → Dict String Rule → Dict String Rule
index_rules [] d = d
index_rules (r ∷ rs) d = index_rules rs (insert r.rule r d)

pub data Detection : Type 0 where
  confirmed : ℕ → ℕ → Detection
  unknown_rule : String → Detection
  below_threshold : Detection

abbrev pub judge : BreachInput → Option Rule → Detection
judge input none = unknown_rule input.rule
judge input (some r) =
    if leb r.threshold input.event_count
    then confirmed r.threshold input.event_count
    else below_threshold

unfoldable pub detect_breaches : List Rule → BreachInput → Detection
detect_breaches rules input = judge input (lookup input.rule (index_rules rules []))

-- `notify_dpbi`: whether the board was notified, by the configured endpoint ("" if there is none).
unfoldable pub notify_dpbi : String → BreachInput → Bool
notify_dpbi endpoint input = if endpoint == "" then false else true

-- `notify_affected_principals` is a placeholder: its count is 0.
unfoldable pub notify_affected_principals : BreachInput → ℕ
notify_affected_principals input = 0

pub data BreachAnswer : Type 0 where
  not_confirmed : String → String → BreachAnswer
  breach_confirmed : String → Bool → ℕ → BreachAnswer

abbrev pub after_detection : String → BreachInput → Detection → BreachAnswer
after_detection endpoint input (confirmed threshold actual) =
    breach_confirmed input.rule (notify_dpbi endpoint input) (notify_affected_principals input)
after_detection endpoint input (unknown_rule name) = not_confirmed input.rule "unknown_rule"
after_detection endpoint input below_threshold = not_confirmed input.rule "below_threshold"

-- `BreachDetectionWorkflow.run`
unfoldable pub run_breach : List Rule → String → BreachInput → BreachAnswer
unfolding detect_breaches notify_dpbi notify_affected_principals
run_breach rules endpoint input = after_detection endpoint input (detect_breaches rules input)
