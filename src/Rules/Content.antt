-- ===== src/Rules/Content.antt =====
-- The hash of a ruleset is its version: the engine answers by the text whose hash it reports.
use project_k_platform.Prelude.{
  String, ◌≡◌, refl, Bool, true, false, Option, none, some, List, [], ◌∷◌, arith, Option-cases, inl,
  inr,
}
use project_k_platform.Prelude.Dict.{lookup, lookup-insert}
use project_k_platform.Prelude.Eq.{string_eq}
use project_k_platform.Prelude.Result.{ok}
use project_k_platform.Rules.{
  Context, ZenResult, EvaluationResult, Engine, load_rulesets, load_all, new_engine, reload,
  evaluate, get_ruleset_hash, result_output,
}

abbrev hash_of : (String → String) → Option String → Option String
hash_of f none = none
hash_of f (some c) = some (f c)

module _ (zen : String → Context → Option ZenResult) (sha256 : String → String) where
  -- Each loaded ruleset has the hash of its own text, and no other name has a hash.
  abbrev pub IsAddressed : Engine → Type 0
  IsAddressed e = (n : String) → lookup n e.hashes ≡ hash_of sha256 (lookup n e.engines)

  load_rulesets-IsAddressed :
      (fs : List (String × String)) (e : Engine)
      → IsAddressed e
      → IsAddressed (load_rulesets zen sha256 fs e)
  unfolding load_rulesets
  load_rulesets-IsAddressed [] e h = h
  load_rulesets-IsAddressed ((name, content) ∷ fs) e h = load_rulesets-IsAddressed fs _ (λ n.
      ground (
        arith,
        h n,
        lookup-insert name n content e.engines,
        lookup-insert name n (sha256 content) e.hashes,
      ))

  load_all-IsAddressed :
      (installed : Bool) (fs : List (String × String)) (e : Engine)
      → IsAddressed e
      → IsAddressed (load_all zen sha256 installed fs e)
  unfolding load_all
  load_all-IsAddressed true fs e h = load_rulesets-IsAddressed fs _ h
  load_all-IsAddressed false fs e h = h

  -- An engine as the program can get it: built from a directory, then reloaded any number of times.
  pub data Loaded : Engine → Type 0 where
    built :
        (installed : Bool) (fs : List (String × String))
        → Loaded (new_engine zen sha256 installed fs)
    reloaded :
        {e : Engine} (installed : Bool) (fs : List (String × String))
        → Loaded e
        → Loaded (reload zen sha256 installed fs e)

  Loaded-IsAddressed : {e : Engine} → Loaded e → IsAddressed e
  unfolding new_engine reload
  Loaded-IsAddressed (built installed fs) =
      load_all-IsAddressed installed fs (record { engines = []; hashes = []; engine_version = "" })
        (λ n. refl)
  Loaded-IsAddressed (reloaded {e = e} installed fs l) =
      load_all-IsAddressed installed fs (record e { engines = []; hashes = [] }) (λ n. refl)

  evaluate-content_of :
      (e : Engine) (name : String) (context : Context) {r : EvaluationResult}
      → IsAddressed e
      → evaluate zen sha256 e name context ≡ ok r
      → (content : String) × (answer : ZenResult) × (lookup name e.engines ≡ some content)
        × (zen content context ≡ some answer)
        × (r.output ≡ result_output answer)
        × (r.ruleset_hash ≡ sha256 content)
        × (get_ruleset_hash zen sha256 e name ≡ ok r.ruleset_hash)
  unfolding evaluate get_ruleset_hash
  evaluate-content_of e name context addressed h = elim (Option-cases (lookup name e.engines)) [
    | inl q ↦ ground arith
    | inr (c, q) ↦ elim (Option-cases (zen c context)) [
      | inl p ↦ ground arith
      | inr (a, p) ↦ (
        c,
        a,
        q,
        p,
        ground (arith, addressed name),
        ground (arith, addressed name),
        ground (arith, addressed name),
      )
    ]
  ]

  -- If `evaluate` succeeds on an engine that was built and reloaded in any way, the output comes from
  -- a ruleset text loaded under that name, and the hash in the result is the SHA-256 of that very
  -- text, which `get_ruleset_hash` reports too.
  pub evaluate-content :
      (e : Engine) (name : String) (context : Context) {r : EvaluationResult}
      → Loaded e
      → evaluate zen sha256 e name context ≡ ok r
      → (content : String) × (answer : ZenResult) × (lookup name e.engines ≡ some content)
        × (zen content context ≡ some answer)
        × (r.output ≡ result_output answer)
        × (r.ruleset_hash ≡ sha256 content)
        × (get_ruleset_hash zen sha256 e name ≡ ok r.ruleset_hash)
  evaluate-content e name context l h = evaluate-content_of e name context (Loaded-IsAddressed l) h
