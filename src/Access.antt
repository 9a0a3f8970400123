-- ===== src/Access.antt =====
-- The access control of libs/common/middleware.py (DPDPRBACMiddleware and `_decode_token`). The
-- packages jwt and dpdp_core are parameters: what decoding a token gives, with a key of the key
-- server and without, which roles the claims hold, and whether roles may use a path.
use text.Mathlib.Text.{starts_with}
use Prim.Native.String.{slice, len}
use project_k_platform.Prelude.{
  ℕ, String, ◌≡◌, ◌≢◌, ◌⊎◌, refl, inl, inr, Bool, true, false, Option, none, some, [], ◌∷◌, any,
  arith, Bool-cases, if◌then◌else◌,
}
use project_k_platform.Prelude.Eq.{◌==◌, string_eq}

-- What a call of the jwt package gives: claims, or one of the exceptions that the code tells apart.
pub data Decoding (Claims : Type 0) : Type 0 where
  decoded : Claims → Decoding Claims
  expired_signature : Decoding Claims
  invalid_token : Decoding Claims
  other_exception : Decoding Claims

-- `_decode_token`: claims, an `_AuthError`, or another exception.
pub data TokenResult (Claims : Type 0) : Type 0 where
  claims : Claims → TokenResult Claims
  auth_error : String → TokenResult Claims
  raises : TokenResult Claims

pub data Outcome : Type 0 where
  forwarded : Outcome
  refused : ℕ → String → Outcome

abbrev pub is_protected_path : String → Bool
is_protected_path path = any (λ p. starts_with path p) ("/ops/" ∷ "/dpdp/" ∷ [])

abbrev pub bearer : String
bearer = "Bearer "

abbrev pub token_of : String → String
token_of header = slice header 7 (len header)

module _ {Claims : Type 0} where
  abbrev pub with_key : Decoding Claims → TokenResult Claims
  with_key (decoded c) = claims c
  with_key expired_signature = auth_error "Token expired"
  with_key invalid_token = auth_error "Invalid token"
  with_key other_exception = raises

  abbrev pub without_key : Decoding Claims → TokenResult Claims
  without_key (decoded c) = claims c
  without_key expired_signature = raises
  without_key invalid_token = raises
  without_key other_exception = raises

  -- A key client exists if a URL of the key server is configured.
  unfoldable pub decode_token :
      (String → Decoding Claims) → (String → Decoding Claims) → String → String → TokenResult Claims
  decode_token verified unverified jwks_url token =
      if jwks_url == "" then without_key (unverified token) else with_key (verified token)

module _ {Claims Roles : Type 0} (extract_roles : Claims → Option Roles)
    (check_role_access : String → Roles → Option Bool) where
  -- Any exception but an `_AuthError` is only logged.
  abbrev pub by_access : Option Bool → Outcome
  by_access none = forwarded
  by_access (some allowed) =
      if allowed then forwarded else refused 403 "Insufficient role for this endpoint"

  abbrev pub by_roles : String → Option Roles → Outcome
  by_roles path none = forwarded
  by_roles path (some roles) = by_access (check_role_access path roles)

  abbrev pub by_token : String → TokenResult Claims → Outcome
  by_token path (claims c) = by_roles path (extract_roles c)
  by_token path (auth_error why) = refused 401 why
  by_token path raises = forwarded

  unfoldable pub dispatch :
      (String → Decoding Claims)
      → (String → Decoding Claims)
      → Bool
      → String
      → String
      → String
      → Outcome
  unfolding decode_token
  dispatch verified unverified rbac_enabled jwks_url path header =
      if rbac_enabled
      then (if starts_with header bearer
          then by_token path (decode_token verified unverified jwks_url (token_of header))
          else if is_protected_path path
          then refused 401 "Authorization header required"
          else forwarded)
      else forwarded

  -- What lets a token pass on a path: roles that may use it, or an exception on the way to the check.
  abbrev pub Passes : String → TokenResult Claims → Type 0
  Passes path t =
      ((c : Claims) × (roles : Roles) × (t ≡ claims c)
        × (extract_roles c ≡ some roles)
        × (check_role_access path roles ≡ some true))
      ⊎ ((t ≡ raises)
          ⊎ ((c : Claims) × (t ≡ claims c)
              × ((extract_roles c ≡ none)
                  ⊎ ((roles : Roles) × (extract_roles c ≡ some roles)
                      × (check_role_access path roles ≡ none)))))

  by_token-Passes :
      (path : String) (t : TokenResult Claims) → by_token path t ≡ forwarded → Passes path t
  by_token-Passes path (auth_error why) h = cc
  by_token-Passes path raises h = inr (inl refl)
  by_token-Passes path (claims c) h = with_roles (extract_roles c) refl h
    where
      with_access :
          (roles : Roles) (b : Option Bool)
          → extract_roles c ≡ some roles
          → check_role_access path roles ≡ b
          → by_access b ≡ forwarded
          → Passes path (claims c)
      with_access roles none e d k = inr (inr (c, refl, inr (roles, e, d)))
      with_access roles (some true) e d k = inl (c, roles, refl, e, d)
      with_access roles (some false) e d k = cc

      with_roles :
          (r : Option Roles)
          → extract_roles c ≡ r
          → by_roles path r ≡ forwarded
          → Passes path (claims c)
      with_roles none e k = inr (inr (c, refl, inl e))
      with_roles (some roles) e k = with_access roles _ e refl k

-- With access control on, a request to a protected path that reaches the application carries a bearer
-- token; and either roles of its claims may use the path, or decoding raised an exception that is no
-- `_AuthError`, or reading the roles or checking them raised one.
pub dispatch-Passes :
    {Claims Roles : Type 0} (verified unverified : String → Decoding Claims)
    (extract_roles : Claims → Option Roles) (check_role_access : String → Roles → Option Bool)
    (jwks_url path header : String)
    → is_protected_path path ≡ true
    → dispatch extract_roles check_role_access verified unverified true jwks_url path header
      ≡ forwarded
    → (starts_with header bearer ≡ true)
      × Passes extract_roles check_role_access path
          (decode_token verified unverified jwks_url (token_of header))
unfolding dispatch
dispatch-Passes verified unverified extract_roles check_role_access jwks_url path header p h =
    elim (Bool-cases (starts_with header bearer)) [
      | inl e ↦ (e, by_token-Passes extract_roles check_role_access path _ (ground (arith)))
      | inr e ↦ ground arith
    ]

-- Where no key server is configured, a bearer token that the jwt package rejects, as expired, invalid
-- or otherwise, is let through on every path, with access control on or off.
pub dispatch-undecodable :
    {Claims Roles : Type 0} (verified unverified : String → Decoding Claims)
    (extract_roles : Claims → Option Roles) (check_role_access : String → Roles → Option Bool)
    (rbac_enabled : Bool) (path header : String)
    → starts_with header bearer ≡ true
    → ((c : Claims) → unverified (token_of header) ≢ decoded c)
    → dispatch extract_roles check_role_access verified unverified rbac_enabled "" path header
      ≡ forwarded
unfolding dispatch decode_token
dispatch-undecodable {Claims = Claims} verified unverified extract_roles check_role_access
      rbac_enabled path header b h =
    elim (Bool-cases rbac_enabled) [
      | inr e ↦ rw e
      | inl e ↦ rw (e, b) (split (unverified (token_of header)) h)
    ]
  where
    split :
        (d : Decoding Claims)
        → ((c : Claims) → d ≢ decoded c)
        → by_token extract_roles check_role_access path (without_key d) ≡ forwarded
    split (decoded c) k = absurd (k c refl)
    split expired_signature k = refl
    split invalid_token k = refl
    split other_exception k = refl
