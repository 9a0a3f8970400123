-- ===== src/Ops/Authorization.antt =====
-- The API key that guards the routes under /ops in ops_api.py.
use Prim.Native.String.{slice, len}
use text.Mathlib.Text.{starts_with}
use project_k_platform.Prelude.{String, ◌≡◌, ◌⊎◌, refl, true, false, ◌&&◌, [], Bool-cases, inl, inr}
use project_k_platform.Prelude.Eq.{◌==◌, string_eq}
use project_k_platform.Prelude.Result.{Result, ok, err, is_ok}
use project_k_platform.Ops.{Outside, Fresh, verify_ops_api_key}
use project_k_platform.Ops.Endpoints.{OpsCall, Settings, if_authorized, serve_ops}

abbrev pub bearer_token : String → String
bearer_token authorization = slice authorization 7 (len authorization)

-- The key is verified only from its own bearer token.
verify_ops_api_key_cases :
    (out : Outside) (key authorization : String)
    → ((starts_with authorization "Bearer " ≡ true) × (bearer_token authorization ≡ key))
      ⊎ (is_ok (verify_ops_api_key out key authorization) ≡ false)
unfolding verify_ops_api_key
verify_ops_api_key_cases out key authorization =
    elim (Bool-cases (starts_with authorization "Bearer ")) [
      | inr e ↦ inr (rw e refl)
      | inl e ↦ elim (Bool-cases (bearer_token authorization == key)) [
        | inl k ↦ inl (e, (string_eq.same_iff (bearer_token authorization) key).0 k)
        | inr k ↦
            elim (Bool-cases (out.is_ascii (bearer_token authorization) && out.is_ascii key)) [
              | inl a ↦ inr (rw (e, a, k) refl)
              | inr a ↦ inr (rw (e, a) refl)
            ]
      ]
    ]

-- A request to any route under /ops either carries "Bearer " and the configured key, or it is refused
-- and does nothing: no signal is sent and no event published.
pub serve_ops_authorized :
    (out : Outside) (settings : Settings) (fresh : Fresh) (authorization : String) (call : OpsCall)
    → ((starts_with authorization "Bearer " ≡ true)
        × (bearer_token authorization ≡ settings.ops_api_key))
      ⊎ ((is_ok (serve_ops out settings fresh authorization call).0 ≡ false)
          × ((serve_ops out settings fresh authorization call).1 ≡ []))
unfolding serve_ops
serve_ops_authorized out settings fresh authorization call =
    elim (verify_ops_api_key_cases out settings.ops_api_key authorization) [
      | inl h ↦ inl h
      | inr h ↦ inr (refused (verify_ops_api_key out settings.ops_api_key authorization) h)
    ]
  where
    refused :
        (v : Result String)
        → is_ok v ≡ false
        → (is_ok (if_authorized out settings fresh v call).0 ≡ false)
          × ((if_authorized out settings fresh v call).1 ≡ [])
    refused (ok token) h = cc
    refused (err e) h = (refl, refl)
