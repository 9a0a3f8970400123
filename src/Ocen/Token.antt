-- ===== src/Ocen/Token.antt =====
-- OcenTokenService of libs/ocen_client/auth/token_service.py: the bearer token that is kept until half
-- a minute before it expires. A time is a number of seconds; below 30 seconds after the epoch the
-- expiry would be negative, and is 0 here, which compares alike.
use project_k_platform.Prelude.{
  ℕ, ◌+◌, ◌-◌, ◌<◌, String, ◌≡◌, ◌⊎◌, refl, ◌&&◌, not, Option, none, some, or_default, List, [],
  ◌∷◌, ltb, ltb→lt, if◌then◌else◌, inl, inr, arith,
}
use project_k_platform.Prelude.Eq.{◌==◌, string_eq}
use project_k_platform.Prelude.Result.{Result, ok, err}

pub record TokenService : Type 0 where
  pub client_id : String
  pub client_secret : String
  pub token_url : String
  pub cached_token : Option String
  pub token_expiry : ℕ

-- What the token endpoint answers.
pub record TokenData : Type 0 where
  pub access_token : String
  pub expires_in : Option ℕ

-- The form that is posted to the endpoint.
pub record TokenForm : Type 0 where
  pub url : String
  pub grant_type : String
  pub client_id : String
  pub client_secret : String

-- An argument that is None or empty is read from the environment, where `default` stands for it if
-- it is not set.
abbrev pub or_environ : Option String → Option String → String → String
or_environ none env default = or_default env default
or_environ (some a) env default = if a == "" then or_default env default else a

-- The environment: OCEN_CLIENT_ID, OCEN_CLIENT_SECRET and OCEN_TOKEN_URL.
unfoldable pub init :
    Option String × Option String × Option String
    → Option String × Option String × Option String
    → TokenService
init (client_id, client_secret, token_url) (env_id, env_secret, env_url) = record {
  client_id = or_environ client_id env_id "";
  client_secret = or_environ client_secret env_secret "";
  token_url =
      or_environ token_url env_url
        "https://auth.ocen.network/realms/dev/protocol/openid-connect/token";
  cached_token = none;
  token_expiry = 0;
}

abbrev pub form_of : TokenService → TokenForm
form_of s = record {
  url = s.token_url;
  grant_type = "client_credentials";
  client_id = s.client_id;
  client_secret = s.client_secret;
}

-- `self._cached_token and now < self._token_expiry`
abbrev pub usable : ℕ → Option String → ℕ → Option String
usable now none expiry = none
usable now (some token) expiry = if not (token == "") && ltb now expiry then some token else none

abbrev pub lifetime : TokenData → ℕ
lifetime d = or_default d.expires_in 300

abbrev pub refresh : ℕ → Result TokenData → TokenService → Result String × TokenService
refresh later (err e) s = (err e, s)
refresh later (ok d) s = (
  ok d.access_token,
  record s { cached_token = some d.access_token; token_expiry = later + lifetime d - 30 },
)

abbrev pub token_or_refresh :
    Option String → ℕ → Result TokenData → TokenService → Result String × TokenService
token_or_refresh (some token) later answer s = (ok token, s)
token_or_refresh none later answer s = refresh later answer s

-- `now` is the time of the test, `later` that of the answer.
unfoldable pub get_bearer_token :
    (TokenForm → Result TokenData) → ℕ → ℕ → TokenService → Result String × TokenService
get_bearer_token post now later s =
    token_or_refresh (usable now s.cached_token s.token_expiry) later (post (form_of s)) s

-- One call: its two times, and what the endpoint would answer.
pub record Call : Type 0 where
  pub now : ℕ
  pub later : ℕ
  pub answer : Result TokenData

-- `token` is what the endpoint answered in call `c`.
pub record IsIssued (token : String) (c : Call) : Type 0 where
  pub token_data : TokenData
  pub answered : c.answer ≡ ok token_data
  pub named : token_data.access_token ≡ token

-- `token` is good at `now`: it was issued in `c`, and more than 30 seconds of its lifetime are left.
pub record IsGood (now : ℕ) (token : String) (c : Call) : Type 0 where
  pub issued : IsIssued token c
  pub in_time : now + 30 < c.later + lifetime issued.token_data

unfoldable pub call : Call → TokenService → Result String × TokenService
unfolding get_bearer_token
call c s = get_bearer_token (λ form. c.answer) c.now c.later s

-- The service after a history of calls, the last one first.
unfoldable pub after : List Call → TokenService → TokenService
unfolding call
after [] s = s
after (c ∷ earlier) s = (call c (after earlier s)).1

-- `c` is one of the calls.
pub data Among (c : Call) : List Call → Type 0 where
  here : {past : List Call} → Among c (c ∷ past)
  there : {d : Call} {past : List Call} → Among c past → Among c (d ∷ past)

pub record IsKept (past : List Call) (expiry : ℕ) (token : String) : Type 0 where
  pub origin : Call
  pub in_past : Among origin past
  pub issued : IsIssued token origin
  pub expires : expiry ≡ origin.later + lifetime issued.token_data - 30

abbrev pub IsCached : List Call → TokenService → Type 0
IsCached past s = (token : String) → s.cached_token ≡ some token → IsKept past s.token_expiry token

refresh-IsCached :
    (c : Call) (past : List Call) (s : TokenService) (a : Result TokenData)
    → c.answer ≡ a
    → IsCached past s
    → IsCached (c ∷ past) (refresh c.later a s).1
refresh-IsCached c past s (err e) h kept token k =
    let old = kept token k in
    record {
      origin = old.origin;
      in_past = there old.in_past;
      issued = old.issued;
      expires = old.expires;
    }
refresh-IsCached c past s (ok d) h kept token k = record {
  origin = c;
  in_past = here;
  issued = record { token_data = d; answered = h; named = cc };
  expires = refl;
}

call-IsCached :
    (c : Call) (past : List Call) (s : TokenService)
    → IsCached past s
    → IsCached (c ∷ past) (call c s).1
unfolding call
call-IsCached c past s kept = go (usable c.now s.cached_token s.token_expiry)
  where
    go : (u : Option String) → IsCached (c ∷ past) (token_or_refresh u c.later c.answer s).1
    go none token k = refresh-IsCached c past s c.answer refl kept token k
    go (some t) token k =
        let old = kept token k in
        record {
          origin = old.origin;
          in_past = there old.in_past;
          issued = old.issued;
          expires = old.expires;
        }

after-IsCached :
    (past : List Call) (s : TokenService) → s.cached_token ≡ none → IsCached past (after past s)
unfolding after
after-IsCached [] s empty token k = cc
after-IsCached (c ∷ past) s empty token k =
    call-IsCached c past (after past s) (after-IsCached past s empty) token k

usable-fresh :
    (now : ℕ) (cached : Option String) (expiry : ℕ) (token : String)
    → usable now cached expiry ≡ some token
    → (cached ≡ some token) × (now < expiry)
usable-fresh now none expiry token h = cc
usable-fresh now (some t) expiry token h = ground (arith, ltb→lt now expiry)

-- After any history of calls on a new service, the token that a further call returns was either
-- answered by the token endpoint in that call, or it was answered in an earlier call and at the time
-- of the test more than 30 seconds of the lifetime given then (300 seconds if none was) are left.
pub call-after :
    (s : TokenService) (past : List Call) (c : Call) (token : String)
    → s.cached_token ≡ none
    → (call c (after past s)).0 ≡ ok token
    → IsIssued token c ⊎ ((origin : Call) × Among origin past × IsGood c.now token origin)
unfolding call
call-after s past c token empty h = go (usable c.now t.cached_token t.token_expiry) refl h
  where
    t : TokenService
    t = after past s

    go :
        (u : Option String)
        → usable c.now t.cached_token t.token_expiry ≡ u
        → (token_or_refresh u c.later c.answer t).0 ≡ ok token
        → IsIssued token c ⊎ ((origin : Call) × Among origin past × IsGood c.now token origin)
    go none e k = inl (answered c.answer refl k)
      where
        answered :
            (a : Result TokenData)
            → c.answer ≡ a
            → (refresh c.later a t).0 ≡ ok token
            → IsIssued token c
        answered (err x) e k = cc
        answered (ok d) e k = record { token_data = d; answered = e; named = cc }
    go (some x) e k =
        inr (kept_good (usable-fresh c.now t.cached_token t.token_expiry token (ground arith)))
      where
        kept_good :
            (t.cached_token ≡ some token) × (c.now < t.token_expiry)
            → (origin : Call) × Among origin past × IsGood c.now token origin
        kept_good (e, fresh) =
            let old = after-IsCached past s empty token e in
            (
              old.origin,
              old.in_past,
              record { issued = old.issued; in_time = omega (arith, old.expires, fresh) },
            )
