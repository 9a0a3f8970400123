-- ===== src/Rules.antt =====
-- ZenDecisionEngine of libs/zen_rules/engine.py. The `zen` package is not part of the repository: it
-- is the parameter `zen`, which gives what a decision built from a ruleset's text answers on a
-- context (`none` when it raises); `sha256` gives the hex digest of a text. A directory's rulesets
-- are its sorted list of (stem, text).
pub mod Content
use project_k_platform.Prelude.{
  ℕ, String, Bool, true, false, Option, none, some, List, [], ◌∷◌, or_default, if◌then◌else◌, map,
}
use project_k_platform.Prelude.Dict.{Dict, lookup, insert, contains}
use project_k_platform.Prelude.Eq.{string_eq}
use project_k_platform.Prelude.Result.{
  Error, key_error, runtime_error, Result, ok, err, ◌>>=◌, or_raise,
}

-- The facts that a ruleset is evaluated on, each printed as text.
abbrev pub Context : Type 0
Context = Dict String String

-- The output dict, as far as the callers read it.
pub record Output : Type 0 where
  pub outcome : Option String
  pub reason : Option String
  pub matched_lender_ids : Option (List String)

abbrev pub no_output : Output
no_output = record { outcome = none; reason = none; matched_lender_ids = none }

-- What `decision.evaluate` returns: a dict with or without the key "result", or something else that
-- `dict(…)` converts.
pub data ZenResult : Type 0 where
  dict_result : Option Output → ZenResult
  other_result : Output → ZenResult

pub record EvaluationResult : Type 0 where
  pub output : Output
  pub ruleset_hash : String
  pub engine_version : String
  pub ruleset_name : String

pub record Engine : Type 0 where
  pub engines : Dict String String
  pub hashes : Dict String String
  pub engine_version : String

abbrev pub result_output : ZenResult → Output
result_output (dict_result o) = or_default o no_output
result_output (other_result o) = o

module _ (zen : String → Context → Option ZenResult) (sha256 : String → String) where
  -- One round of the loop of `_load_all`.
  unfoldable pub load_ruleset : String × String → Engine → Engine
  load_ruleset (name, content) e = record e {
    engines = insert name content e.engines;
    hashes = insert name (sha256 content) e.hashes;
  }

  unfoldable pub load_rulesets : List (String × String) → Engine → Engine
  unfolding load_ruleset
  load_rulesets [] e = e
  load_rulesets (f ∷ fs) e = load_rulesets fs (load_ruleset f e)

  -- `installed`: whether `import zen` succeeds.
  unfoldable pub load_all : Bool → List (String × String) → Engine → Engine
  unfolding load_rulesets
  load_all installed files e =
      if installed
      then load_rulesets files (record e { engine_version = "zen-engine-python" })
      else record e { engine_version = "stub-0.0.0" }

  -- `ZenDecisionEngine(rules_dir)`
  unfoldable pub new_engine : Bool → List (String × String) → Engine
  unfolding load_all
  new_engine installed files =
      load_all installed files (record { engines = []; hashes = []; engine_version = "" })

  unfoldable pub reload : Bool → List (String × String) → Engine → Engine
  unfolding load_all
  reload installed files e = load_all installed files (record e { engines = []; hashes = [] })

  abbrev not_found : Error
  not_found = key_error "Ruleset not found"

  abbrev evaluation_failed : Error
  evaluation_failed = runtime_error "Rule evaluation failed"

  -- The body of the `try`: a missing hash raises inside it too.
  abbrev decided : Engine → String → Context → String → Result EvaluationResult
  decided e name context content = do
    answer ← or_raise (zen content context) evaluation_failed
    hash ← or_raise (lookup name e.hashes) evaluation_failed
    ok (record {
      output = result_output answer;
      ruleset_hash = hash;
      engine_version = e.engine_version;
      ruleset_name = name;
    })

  unfoldable pub evaluate : Engine → String → Context → Result EvaluationResult
  evaluate e name context = do
    content ← or_raise (lookup name e.engines) not_found
    decided e name context content

  unfoldable pub get_ruleset_hash : Engine → String → Result String
  get_ruleset_hash e name = or_raise (lookup name e.hashes) not_found

-- `ruleset_name in engine.loaded_rulesets`
abbrev pub is_loaded : String → Engine → Bool
is_loaded name e = contains name e.engines
