-- ===== src/Tests/Signer.antt =====
-- A signer over a base64 of numbers, and the witness of the theorem on signatures.
use Prim.Native.String.{◌∷◌ as cons, count}
use package.text.Mathlib.TextLemmas.{length-append, length-cons}
use project_k_platform.Prelude.{
  ℕ, zero, suc, ◌+◌, ◌-◌, ◌*◌, ◌/◌, String, ◌≡◌, refl, ap, true, some, nat_beq, nat_beq_iff, arith,
}
use project_k_platform.Prelude.Result.{ok}
use project_k_platform.Ocen.Base64.{Base64, Laws, IsFreeOfDots, ◌<>◌, rstrip, padding}
use project_k_platform.Ocen.Signer.{
  JsonWebKey, Crypto, Signer, IsKeyPair, sign, verify, verify_with_public_key, get_public_key_jwk,
  jwk_of, verify-sign,
}

-- `n` letters.
letters : ℕ → String
letters zero = ""
letters (suc n) = cons "A" (letters n)

count-letters : (n : ℕ) → count (letters n) ≡ n
unfolding letters
count-letters zero = refl
count-letters (suc n) = rw (length-cons, count-letters n) refl

rstrip-letters : (n : ℕ) → rstrip (letters n) ≡ letters n
unfolding letters rstrip
rstrip-letters zero = refl
rstrip-letters (suc zero) = refl
rstrip-letters (suc (suc n)) = rw (rstrip-letters (suc n)) refl

letters-IsFreeOfDots : (n : ℕ) → IsFreeOfDots (letters n)
unfolding letters
letters-IsFreeOfDots zero = tt
letters-IsFreeOfDots (suc n) = (refl, letters-IsFreeOfDots n)

-- A byte string is a number, encoded by that many groups of four letters and a padded group.
abbrev base64 : Base64 ℕ
unfolding letters padding
base64 = record {
  urlsafe_b64encode = λ n. letters (4 * n + 2) <> padding 2;
  urlsafe_b64decode = λ s. some ((count s - 4) / 4);
}

count-encoded : (n : ℕ) → (count (letters (4 * n + 2) <> padding 2) - 4) / 4 ≡ n
unfolding padding
count-encoded n = rw (length-append, count-letters (4 * n + 2)) (omega arith)

base64_laws : Laws base64
unfolding base64
base64_laws = record {
  decodes = λ n. ap some (count-encoded n);
  padded = λ n. record {
    body = letters (4 * n + 2);
    missing = 2;
    parts = refl;
    stripped = rstrip-letters (4 * n + 2);
    free = letters-IsFreeOfDots (4 * n + 2);
    few = omega arith;
    whole = rw (count-letters (4 * n + 2)) (omega arith);
  };
}

abbrev key_one : JsonWebKey
unfolding base64
key_one = record {
  kty = "RSA";
  alg = "RS256";
  use_for = "sig";
  kid = "dev-key-1";
  n = rstrip (letters (4 * 9 + 2) <> padding 2);
  e = rstrip (letters (4 * 3 + 2) <> padding 2);
}

-- A signature is the message and the private key added up.
abbrev crypto : Crypto ℕ ℕ
crypto = record {
  base64 = base64;
  encode = count;
  concat = λ a b. a + b;
  header_json = λ kid. 5;
  rsa_sign = λ key message. message + key;
  rsa_verify = λ key signature message. nat_beq signature (message + key.n);
  is_key = λ key. true;
  to_bytes = λ n. n;
  from_bytes = λ b. b;
  dumps = λ k. "{}";
  loads = λ s. ok key_one;
}

abbrev signer : Signer ℕ
signer = record { private_key = 9; public_key = record { n = 9; e = 3 }; kid = "dev-key-1" }

signer-IsKeyPair : IsKeyPair crypto signer
unfolding jwk_of base64 key_one
signer-IsKeyPair = record {
  base64_laws = base64_laws;
  verifies = λ m. (nat_beq_iff (m + 9) (m + 9)).1 refl;
  is_public = refl;
  reads_bytes = λ n. refl;
  reads_json = refl;
}

verify-sign_example :
    (verify crypto signer (sign crypto signer 42) 42 ≡ true)
    × (verify_with_public_key crypto (sign crypto signer 42) 42 (get_public_key_jwk crypto signer)
        ≡ ok true)
verify-sign_example = verify-sign crypto signer 42 signer-IsKeyPair
