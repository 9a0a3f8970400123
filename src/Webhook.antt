-- ===== src/Webhook.antt =====
-- FrappeWebhookClient of services/frappe_sync/webhook_client.py: the signed delivery with its retries.
-- `hmac` is the hex digest under a secret, and `post` gives the status that the attempt of a number is
-- answered with, or none for a request error.
use project_k_platform.Prelude.{
  ℕ, suc, ◌+◌, ◌^◌, String, Bool, true, false, Option, none, some, List, [], ◌∷◌, ◌++◌ as append,
  ltb, if◌then◌else◌, not, ◌&&◌,
}
use Prim.Native.String.{◌++◌}
use project_k_platform.Prelude.Eq.{◌==◌, string_eq}

pub record FrappeWebhookClient : Type 0 where
  pub endpoint : String
  pub api_key : String
  pub api_secret : String
  pub webhook_secret : String

pub record Headers : Type 0 where
  pub content_type : String
  pub platform_signature : String
  pub authorization : Option String

unfoldable pub build_headers : (String → String → String) → FrappeWebhookClient → String → Headers
build_headers hmac c payload = record {
  content_type = "application/json";
  platform_signature = hmac c.webhook_secret payload;
  authorization =
      if not (c.api_key == "") && not (c.api_secret == "")
      then some ("token " ++ c.api_key ++ ":" ++ c.api_secret)
      else none;
}

-- What a delivery does: it posts a body with its headers to the endpoint, and it sleeps.
pub data Action : Type 0 where
  posted : String → String → Headers → Action
  slept : ℕ → Action

-- `range(MAX_RETRIES)`
abbrev pub attempts : List ℕ
attempts = 0 ∷ 1 ∷ 2 ∷ 3 ∷ 4 ∷ []

abbrev pub is_delivered : Option ℕ → Bool
is_delivered none = false
is_delivered (some status) = ltb status 300

abbrev pub backoff : ℕ → List Action
backoff attempt = if ltb attempt 4 then slept (2 ^ attempt) ∷ [] else []

-- The loop, with `send` the post of each attempt.
unfoldable pub deliver_from : (ℕ → Option ℕ) → Action → List ℕ → Bool × List Action
deliver_from post send [] = (false, [])
deliver_from post send (a ∷ as') =
    let rest = deliver_from post send as' in
    if is_delivered (post a) then (true, send ∷ []) else (rest.0, send ∷ append (backoff a) rest.1)

-- `deliver`, on the body as it is encoded.
unfoldable pub deliver :
    (String → String → String) → FrappeWebhookClient → (ℕ → Option ℕ) → String → Bool × List Action
unfolding deliver_from build_headers
deliver hmac c post body =
    deliver_from post (posted c.endpoint body (build_headers hmac c body)) attempts

abbrev pub posts : List Action → ℕ
posts [] = 0
posts (posted e b h ∷ as') = suc (posts as')
posts (slept n ∷ as') = posts as'

abbrev pub total_sleep : List Action → ℕ
total_sleep [] = 0
total_sleep (posted e b h ∷ as') = total_sleep as'
total_sleep (slept n ∷ as') = n + total_sleep as'
