-- ===== src/Tests/Access.antt =====
-- A request of an operator with a token that the key server's key decodes, and one with a broken token.
use text.Mathlib.Text.{starts_with}
use project_k_platform.Prelude.{String, ◌≡◌, refl, Bool, true, Option, some}
use project_k_platform.Prelude.Eq.{◌==◌, string_eq}
use project_k_platform.Access.{
  Decoding, decoded, invalid_token, forwarded, bearer, token_of, decode_token, dispatch, Passes,
  dispatch-Passes, dispatch-undecodable,
}

-- Claims and roles are texts; the role of the token "ops" may use every path.
abbrev verified : String → Decoding String
verified token = decoded token

abbrev broken : String → Decoding String
broken token = invalid_token

abbrev roles_of : String → Option String
roles_of c = some c

abbrev may_use : String → String → Option Bool
may_use path role = some (role == "ops")

passed :
    dispatch roles_of may_use verified broken true "https://kc" "/ops/x" "Bearer ops" ≡ forwarded
unfolding dispatch decode_token
passed = refl

dispatch-Passes_example :
    (starts_with "Bearer ops" bearer ≡ true)
    × Passes roles_of may_use "/ops/x"
        (decode_token verified broken "https://kc" (token_of "Bearer ops"))
dispatch-Passes_example =
    dispatch-Passes verified broken roles_of may_use "https://kc" "/ops/x" "Bearer ops" refl passed

dispatch-undecodable_example :
    dispatch roles_of may_use verified broken true "" "/ops/x" "Bearer garbage" ≡ forwarded
dispatch-undecodable_example =
    dispatch-undecodable verified broken roles_of may_use true "/ops/x" "Bearer garbage" refl
      (λ c e. cc)
