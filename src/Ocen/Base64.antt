-- ===== src/Ocen/Base64.antt =====
-- `_base64url_encode` and `_base64url_decode` of libs/ocen_client/jws/signer.py, and `str.split(".")`.
-- The base64 module is a parameter, and so is the type of byte strings.
use Prim.Native.Char.{Char, code}
use Prim.Native.String.{[] as empty, ◌∷◌ as cons, ◌++◌ as push_text, count}
use package.text.Mathlib.TextLemmas.{cons-append, nil-append, append-nil}
use project_k_platform.Prelude.{
  ℕ, zero, suc, ◌+◌, ◌-◌, ◌%◌, ◌≤◌, String, ◌≡◌, refl, ◌∙◌, ap, Bool, false, Option, some, List, [],
  ◌∷◌, if◌then◌else◌, nat_beq, Bool-cases, inl, inr, arith, sym, ◌≢◌, nat_beq_iff,
}
use project_k_platform.Prelude.Eq.{string_eq}

abbrev pub is_dot : Char → Bool
is_dot c = nat_beq (code c) 46

infixr 65 ◌<>◌
abbrev pub ◌<>◌ : String → String → String
s <> t = push_text s t

-- The first of the parts gets one more character.
abbrev extend : Char → List String → List String
extend c [] = []
extend c (x ∷ xs) = cons c x ∷ xs

-- `s.split(".")`
unfoldable pub split_dots : String → List String
split_dots empty = "" ∷ []
split_dots (cons c s) = let rest = split_dots s in if is_dot c then "" ∷ rest else extend c rest

-- No character of the text is a dot.
abbrev pub IsFreeOfDots : String → Type 0
IsFreeOfDots empty = Unit
IsFreeOfDots (cons c s) = (is_dot c ≡ false) × IsFreeOfDots s

split_dots-free : (s : String) → IsFreeOfDots s → split_dots s ≡ s ∷ []
unfolding split_dots
split_dots-free empty h = refl
split_dots-free (cons c s) h = rw (h.0, split_dots-free s h.1) refl

dot-append : (t : String) → "." <> t ≡ cons "." t
dot-append t = cons-append "." "" t ∙ ap (cons ".") (nil-append t)

split_dots-append : (s t : String) → IsFreeOfDots s → split_dots (s <> "." <> t) ≡ s ∷ split_dots t
unfolding split_dots
split_dots-append empty t h = rw (nil-append, dot-append t) refl
split_dots-append (cons c s) t h =
    rw (cons-append c s ("." <> t), h.0, split_dots-append s t h.1) refl

-- Three parts, the middle one empty.
pub split_dots-detached :
    (s t : String)
    → IsFreeOfDots s
    → IsFreeOfDots t
    → split_dots (s <> "." <> "." <> t) ≡ s ∷ "" ∷ t ∷ []
unfolding split_dots
split_dots-detached s t hs ht =
    split_dots-append s ("." <> t) hs
    ∙ rw (dot-append t) (ap (λ rest. s ∷ "" ∷ rest) (split_dots-free t ht))

abbrev pub is_padding : Char → Bool
is_padding c = nat_beq (code c) 61

abbrev keep_char : Char → String → String
keep_char c empty = if is_padding c then empty else cons c empty
keep_char c (cons d s) = cons c (cons d s)

-- `rstrip("=")`
unfoldable pub rstrip : String → String
rstrip empty = empty
rstrip (cons c s) = keep_char c (rstrip s)

-- `"=" * n`
unfoldable pub padding : ℕ → String
padding zero = empty
padding (suc n) = cons "=" (padding n)

-- The base64 module: an encoding with its padding, and a decoding, which may raise.
pub record Base64 (Bytes : Type 0) : Type 0 where
  pub urlsafe_b64encode : Bytes → String
  pub urlsafe_b64decode : String → Option Bytes

-- An encoding: a text with no padding at its end and no dot, then at most two padding characters,
-- which make its length a multiple of four.
pub record IsPadded (encoded : String) : Type 0 where
  pub body : String
  pub missing : ℕ
  pub parts : encoded ≡ body <> padding missing
  pub stripped : rstrip body ≡ body
  pub free : IsFreeOfDots body
  pub few : missing ≤ 2
  pub whole : (count body + missing) % 4 ≡ 0

module _ {Bytes : Type 0} (b : Base64 Bytes) where
  unfoldable pub base64url_encode : Bytes → String
  unfolding rstrip
  base64url_encode bytes = rstrip (b.urlsafe_b64encode bytes)

  unfoldable pub base64url_decode : String → Option Bytes
  unfolding padding
  base64url_decode s =
      let needed = 4 - count s % 4 in
      b.urlsafe_b64decode (if nat_beq needed 4 then s else s <> padding needed)

  -- What the documentation of base64 and RFC 4648 say.
  pub record Laws : Type 0 where
    pub decodes : (bytes : Bytes) → b.urlsafe_b64decode (b.urlsafe_b64encode bytes) ≡ some bytes
    pub padded : (bytes : Bytes) → IsPadded (b.urlsafe_b64encode bytes)

rstrip-padding : (n : ℕ) → rstrip (padding n) ≡ empty
unfolding rstrip padding
rstrip-padding zero = refl
rstrip-padding (suc n) = rw (rstrip-padding n) refl

rstrip-append : (s : String) (n : ℕ) → rstrip (s <> padding n) ≡ rstrip s
unfolding rstrip
rstrip-append empty n = rw nil-append (rstrip-padding n)
rstrip-append (cons c s) n = rw (cons-append, rstrip-append s n) refl

-- The padding that decoding adds is what encoding dropped.
repad :
    (body : String) (k : ℕ)
    → k ≤ 2
    → (count body + k) % 4 ≡ 0
    → (if nat_beq (4 - count body % 4) 4 then body else body <> padding (4 - count body % 4))
      ≡ body <> padding k
unfolding padding
repad body k few whole = elim (Bool-cases (nat_beq (4 - count body % 4) 4)) [
  | inl e ↦ rw e (
      sym (append-nil body)
      ∙ ap (λ n. body <> padding n) (none_missing ((nat_beq_iff (4 - count body % 4) 4).0 e)))
  | inr e ↦ rw e (ap (λ n. body <> padding n) (as_missing (λ h. apart h e)))
]
  where
    apart : 4 - count body % 4 ≡ 4 → nat_beq (4 - count body % 4) 4 ≡ false → ⊥
    apart h e = ground arith

    none_missing : 4 - count body % 4 ≡ 4 → 0 ≡ k
    none_missing h = omega arith

    as_missing : 4 - count body % 4 ≢ 4 → 4 - count body % 4 ≡ k
    as_missing h = omega arith

module _ {Bytes : Type 0} (b : Base64 Bytes) (laws : Laws b) where
  pub base64url_encode-body : (bytes : Bytes) → base64url_encode b bytes ≡ (laws.padded bytes).body
  unfolding base64url_encode rstrip
  base64url_encode-body bytes =
      let p = laws.padded bytes in ap rstrip p.parts ∙ rstrip-append p.body p.missing ∙ p.stripped

  pub base64url_decode-base64url_encode :
      (bytes : Bytes) → base64url_decode b (base64url_encode b bytes) ≡ some bytes
  unfolding base64url_decode padding
  base64url_decode-base64url_encode bytes =
      let p = laws.padded bytes in
      rw (base64url_encode-body bytes) (
        ap b.urlsafe_b64decode (repad p.body p.missing p.few p.whole ∙ sym p.parts)
        ∙ laws.decodes bytes)

  pub base64url_encode-IsFreeOfDots : (bytes : Bytes) → IsFreeOfDots (base64url_encode b bytes)
  base64url_encode-IsFreeOfDots bytes = rw (base64url_encode-body bytes) (laws.padded bytes).free
