-- ===== src/Ocen/Signer.antt =====
-- OcenJWSSigner of libs/ocen_client/jws/signer.py: detached signatures of a body, which is given as
-- bytes. Byte strings, RSA, JSON and big-endian integers are Python's and parameters here.
use project_k_platform.Prelude.{
  ℕ, String, ◌≡◌, refl, ◌∙◌, ap, Bool, true, false, Option, none, some, if◌then◌else◌, List, [],
  ◌∷◌,
}
use project_k_platform.Prelude.Result.{Result, ok, err, ◌>>=◌, or_raise, value_error}
use project_k_platform.Ocen.Base64.{
  Base64, Laws, base64url_encode, base64url_decode, split_dots, ◌<>◌, split_dots-detached,
  base64url_encode-IsFreeOfDots, base64url_decode-base64url_encode,
}

-- The public key as it is registered.
pub record JsonWebKey : Type 0 where
  pub kty : String
  pub alg : String
  pub use_for : String
  pub kid : String
  pub n : String
  pub e : String

-- `public_numbers()`
pub record Numbers : Type 0 where
  pub n : ℕ
  pub e : ℕ

-- What the signer takes from outside, for the types of byte strings and of private keys.
pub record Crypto (Bytes Private : Type 0) : Type 0 where
  pub base64 : Base64 Bytes
  -- `s.encode()`, and `a + b`
  pub encode : String → Bytes
  pub concat : Bytes → Bytes → Bytes
  -- `json.dumps(header).encode()`, where only the key's identifier varies.
  pub header_json : String → Bytes
  pub rsa_sign : Private → Bytes → Bytes
  -- Whether verifying a signature of a message raises nothing.
  pub rsa_verify : Numbers → Bytes → Bytes → Bool
  -- Whether numbers make a key.
  pub is_key : Numbers → Bool
  pub to_bytes : ℕ → Bytes
  pub from_bytes : Bytes → ℕ
  pub dumps : JsonWebKey → String
  pub loads : String → Result JsonWebKey

pub record Signer (Private : Type 0) : Type 0 where
  pub private_key : Private
  pub public_key : Numbers
  pub kid : String

module _ {Bytes Private : Type 0} (c : Crypto Bytes Private) where
  abbrev pub signing_input : String → Bytes → Bytes
  signing_input header_b64 payload =
      c.concat (c.concat (c.encode header_b64) (c.encode ".")) payload

  unfoldable pub sign : Signer Private → Bytes → String
  unfolding base64url_encode
  sign s payload =
      let header_b64 = base64url_encode c.base64 (c.header_json s.kid) in
      let signature = c.rsa_sign s.private_key (signing_input header_b64 payload) in
      header_b64 <> "." <> "." <> base64url_encode c.base64 signature

  abbrev pub holds : Numbers → String → Bytes → Option Bytes → Bool
  holds key header_b64 payload none = false
  holds key header_b64 payload (some signature) =
      c.rsa_verify key signature (signing_input header_b64 payload)

  -- The header and the signature, if there are three parts.
  abbrev pub header_and_signature : List String → Option (String × String)
  header_and_signature (header ∷ middle ∷ signature ∷ []) = some (header, signature)
  header_and_signature _ = none

  abbrev pub verify_parts : Numbers → Bytes → Option (String × String) → Bool
  verify_parts key payload none = false
  verify_parts key payload (some (header_b64, signature_b64)) =
      holds key header_b64 payload (base64url_decode c.base64 signature_b64)

  -- `verify`: any exception is a failure.
  unfoldable pub verify : Signer Private → String → Bytes → Bool
  unfolding split_dots base64url_decode
  verify s detached_signature payload =
      verify_parts s.public_key payload (header_and_signature (split_dots detached_signature))

  unfoldable pub jwk_of : Signer Private → JsonWebKey
  unfolding base64url_encode
  jwk_of s = record {
    kty = "RSA";
    alg = "RS256";
    use_for = "sig";
    kid = s.kid;
    n = base64url_encode c.base64 (c.to_bytes s.public_key.n);
    e = base64url_encode c.base64 (c.to_bytes s.public_key.e);
  }

  unfoldable pub get_public_key_jwk : Signer Private → String
  unfolding jwk_of
  get_public_key_jwk s = c.dumps (jwk_of s)

  abbrev pub decode_or_raise : String → Result Bytes
  decode_or_raise s = or_raise (base64url_decode c.base64 s) (value_error "Incorrect padding")

  -- `RSAPublicNumbers(e, n).public_key()`
  abbrev pub public_key_of : Numbers → Result Numbers
  public_key_of key = if c.is_key key then ok key else err (value_error "Invalid RSA key")

  abbrev pub verify_with : Bytes → Option (String × String) → String → Result Bool
  verify_with payload none jwk_json = ok false
  verify_with payload (some (header_b64, signature_b64)) jwk_json = do
    jwk ← c.loads jwk_json
    n ← decode_or_raise jwk.n
    e ← decode_or_raise jwk.e
    key ← public_key_of (record { n = c.from_bytes n; e = c.from_bytes e })
    signature ← decode_or_raise signature_b64
    ok (c.rsa_verify key signature (signing_input header_b64 payload))

  -- `verify_with_public_key`: only a signature that does not verify is caught.
  unfoldable pub verify_with_public_key : String → Bytes → String → Result Bool
  unfolding split_dots base64url_decode
  verify_with_public_key detached_signature payload public_key_jwk =
      verify_with payload (header_and_signature (split_dots detached_signature)) public_key_jwk

  -- What the packages promise of a key pair, and of encoding and decoding.
  pub record IsKeyPair (s : Signer Private) : Type 0 where
    pub base64_laws : Laws c.base64
    pub verifies :
        (message : Bytes)
        → c.rsa_verify s.public_key (c.rsa_sign s.private_key message) message ≡ true
    pub is_public : c.is_key s.public_key ≡ true
    pub reads_bytes : (n : ℕ) → c.from_bytes (c.to_bytes n) ≡ n
    pub reads_json : c.loads (c.dumps (jwk_of s)) ≡ ok (jwk_of s)

  public_key_of-pair :
      (s : Signer Private)
      → IsKeyPair s
      → public_key_of (record {
        n = c.from_bytes (c.to_bytes s.public_key.n);
        e = c.from_bytes (c.to_bytes s.public_key.e);
      })
        ≡ ok s.public_key
  public_key_of-pair s pair =
      rw (pair.reads_bytes s.public_key.n, pair.reads_bytes s.public_key.e, pair.is_public) refl

  verify_with-jwk :
      (s : Signer Private) (payload : Bytes) (header signature_b64 : String) (signature : Bytes)
      → IsKeyPair s
      → base64url_decode c.base64 signature_b64 ≡ some signature
      → verify_with payload (some (header, signature_b64)) (get_public_key_jwk s)
        ≡ ok (c.rsa_verify s.public_key signature (signing_input header payload))
  unfolding get_public_key_jwk jwk_of
  verify_with-jwk s payload header signature_b64 signature pair h =
      rw
        (
          pair.reads_json,
          base64url_decode-base64url_encode c.base64 pair.base64_laws (c.to_bytes s.public_key.n),
          base64url_decode-base64url_encode c.base64 pair.base64_laws (c.to_bytes s.public_key.e),
          public_key_of-pair s pair,
          h,
        )
        refl

  -- A detached signature that a signer makes of a body verifies over that body: for the signer
  -- itself, and for a counterpart that has the public key as the signer published it.
  pub verify-sign :
      (s : Signer Private) (payload : Bytes)
      → IsKeyPair s
      → (verify s (sign s payload) payload ≡ true)
        × (verify_with_public_key (sign s payload) payload (get_public_key_jwk s) ≡ ok true)
  unfolding verify sign verify_with_public_key get_public_key_jwk
  verify-sign s payload pair = (
    ap (λ parts. verify_parts s.public_key payload (header_and_signature parts)) split
        ∙ ap (holds s.public_key header payload) (decoded signature)
        ∙ pair.verifies (signing_input header payload),
    ap (λ parts. verify_with payload (header_and_signature parts) (get_public_key_jwk s)) split
        ∙ verify_with-jwk s payload header (base64url_encode c.base64 signature) signature pair
            (decoded signature)
        ∙ ap ok (pair.verifies (signing_input header payload)),
  )
    where
      header : String
      header = base64url_encode c.base64 (c.header_json s.kid)

      signature : Bytes
      signature = c.rsa_sign s.private_key (signing_input header payload)

      decoded :
          (bytes : Bytes) → base64url_decode c.base64 (base64url_encode c.base64 bytes) ≡ some bytes
      decoded = base64url_decode-base64url_encode c.base64 pair.base64_laws

      split : split_dots (sign s payload) ≡ header ∷ "" ∷ base64url_encode c.base64 signature ∷ []
      split =
          split_dots-detached header (base64url_encode c.base64 signature)
            (base64url_encode-IsFreeOfDots c.base64 pair.base64_laws _)
            (base64url_encode-IsFreeOfDots c.base64 pair.base64_laws _)
