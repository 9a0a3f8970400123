-- ===== src/Sandbox/Gst.antt =====
-- sandbox/clients/gst_client.py: the GST client of the sandbox, with its two patterns; `validate_gst` of
-- services/la_orchestrator/activities.py over it; and the GSTIN of libs/common/models.py.
use Prim.Native.Char.{Char, code}
use Prim.Native.String.{[] as empty, ◌∷◌ as cons, count}
use package.text.Mathlib.TextLemmas.{length-cons}
use project_k_platform.Prelude.{
  ℕ, zero, suc, String, ◌≡◌, refl, ap, Bool, true, false, ◌&&◌, ◌||◌, Option, none, some, List, [],
  ◌∷◌, length, leb, nat_beq, if◌then◌else◌, arith,
}
use project_k_platform.Prelude.Eq.{◌==◌, string_eq}
use project_k_platform.Integrations.{GstinValidation}

pub record IrnValidation : Type 0 where
  pub irn : String
  pub valid : Bool
  pub invoice_date : Option String
  pub seller_gstin : Option String

pub record ImsStatus : Type 0 where
  pub irn : String
  pub status : String
  pub action_date : Option String

-- A pattern of character classes, one for each character.
abbrev pub Pattern : Type 0
Pattern = List (Char → Bool)

abbrev pub between : ℕ → ℕ → Char → Bool
between low high c = leb low (code c) && leb (code c) high

-- `[0-9]`, `[A-Z]`, `[A-Z0-9]`, `[1-9A-Z]`, `Z` and `[a-fA-F0-9]`
abbrev pub is_digit : Char → Bool
is_digit = between b'0' b'9'

abbrev pub is_upper : Char → Bool
is_upper = between b'A' b'Z'

abbrev pub is_alphanumeric : Char → Bool
is_alphanumeric c = is_upper c || is_digit c

abbrev pub is_entity : Char → Bool
is_entity c = between b'1' b'9' c || is_upper c

abbrev pub is_z : Char → Bool
is_z c = nat_beq (code c) b'Z'

abbrev pub is_hex : Char → Bool
is_hex c = between b'a' b'f' c || (between b'A' b'F' c || is_digit c)

-- `class{n}`
abbrev pub repeated : ℕ → (Char → Bool) → Pattern → Pattern
repeated zero class rest = rest
repeated (suc n) class rest = class ∷ repeated n class rest

-- Two digits, five letters and four digits.
abbrev pub numbered : Pattern → Pattern
numbered rest = repeated 2 is_digit (repeated 5 is_upper (repeated 4 is_digit rest))

abbrev pub gstin_end : Pattern
gstin_end = is_upper ∷ is_alphanumeric ∷ is_z ∷ is_alphanumeric ∷ []

abbrev pub gstin_pattern : Pattern
gstin_pattern = numbered gstin_end

abbrev pub irn_pattern : Pattern
irn_pattern = repeated 64 is_hex []

-- The pattern of the field `value` of GSTIN in libs/common/models.py.
abbrev pub model_end : Pattern
model_end = is_upper ∷ is_entity ∷ is_z ∷ is_alphanumeric ∷ []

abbrev pub model_pattern : Pattern
model_pattern = numbered model_end

-- `re.match` of `^...$`: `$` also stands before a newline at the end.
unfoldable pub match : Pattern → String → Bool
match [] s = (s == "") || (s == "\n")
match (class ∷ p) empty = false
match (class ∷ p) (cons c s) = class c && match p s

-- Pydantic's check of a pattern, where `$` is the end alone.
unfoldable pub full_match : Pattern → String → Bool
full_match [] s = s == ""
full_match (class ∷ p) empty = false
full_match (class ∷ p) (cons c s) = class c && full_match p s

abbrev pub when : {A : Type 0} → Bool → A → Option A
when b a = if b then some a else none

unfoldable pub validate_irn : String → IrnValidation
unfolding match
validate_irn irn = record {
  irn = irn;
  valid = match irn_pattern irn;
  invoice_date = when (match irn_pattern irn) "2026-06-15";
  seller_gstin = when (match irn_pattern irn) "27AADCB2230M1ZT";
}

-- The date stands exactly with the status "accepted".
unfoldable pub check_ims_status : String → String → ImsStatus
unfolding match
check_ims_status irn buyer_gstin =
    let status : String = if match irn_pattern irn then "accepted" else "pending" in
    record { irn = irn; status = status; action_date = when (status == "accepted") "2026-06-20" }

unfoldable pub validate_gstin : String → GstinValidation
unfolding match
validate_gstin gstin = record {
  gstin = gstin;
  valid = match gstin_pattern gstin;
  trade_name = when (match gstin_pattern gstin) "Sandbox Enterprise Pvt. Ltd.";
  status = if match gstin_pattern gstin then "Active" else "Invalid";
}

-- What the activity `validate_gst` returns of a validation.
pub record ValidateGstResult : Type 0 where
  pub gstin : String
  pub valid : Bool
  pub trade_name : Option String

unfoldable pub validate_gst : (String → GstinValidation) → String → ValidateGstResult
validate_gst validate gstin =
    let result = validate gstin in
    record { gstin = result.gstin; valid = result.valid; trade_name = result.trade_name }

-- Each class of the first pattern lies in that of the second.
abbrev pub IsWithin : Pattern → Pattern → Type 0
IsWithin [] [] = Unit
IsWithin (f ∷ p) (g ∷ q) = ((c : Char) → f c ≡ true → g c ≡ true) × IsWithin p q
IsWithin _ _ = ⊥

both : (a b : Bool) → a && b ≡ true → (a ≡ true) × (b ≡ true)
both true b h = (refl, h)
both false b h = cc

full_match-match :
    (p q : Pattern) (s : String) → IsWithin p q → full_match p s ≡ true → match q s ≡ true
unfolding full_match match
full_match-match [] [] s w h = rw h refl
full_match-match [] (g ∷ q) s w h = absurd w
full_match-match (f ∷ p) [] s w h = absurd w
full_match-match (f ∷ p) (g ∷ q) empty w h = h
full_match-match (f ∷ p) (g ∷ q) (cons c s) w h =
    let (first, others) = both (f c) (full_match p s) h in
    rw (w.0 c first, full_match-match p q s w.1 others) refl

-- A text that a pattern matches fully is as long as the pattern.
full_match-count : (p : Pattern) (s : String) → full_match p s ≡ true → count s ≡ length p
unfolding full_match
full_match-count [] s h = rw ((string_eq.same_iff s "").0 h) refl
full_match-count (f ∷ p) empty h = cc
full_match-count (f ∷ p) (cons c s) h =
    rw (length-cons c s) (ap suc (full_match-count p s (both (f c) (full_match p s) h).1))

entity→alphanumeric : (c : Char) → is_entity c ≡ true → is_alphanumeric c ≡ true
entity→alphanumeric c h = ground arith

repeated-IsWithin :
    (n : ℕ) (class : Char → Bool) (p q : Pattern)
    → IsWithin p q
    → IsWithin (repeated n class p) (repeated n class q)
repeated-IsWithin zero class p q h = h
repeated-IsWithin (suc n) class p q h = (λ c e. e, repeated-IsWithin n class p q h)

numbered-IsWithin : (p q : Pattern) → IsWithin p q → IsWithin (numbered p) (numbered q)
numbered-IsWithin p q h =
    repeated-IsWithin 2 is_digit (repeated 5 is_upper (repeated 4 is_digit p))
      (repeated 5 is_upper (repeated 4 is_digit q))
      (repeated-IsWithin 5 is_upper (repeated 4 is_digit p) (repeated 4 is_digit q)
        (repeated-IsWithin 4 is_digit p q h))

model_pattern-IsWithin : IsWithin model_pattern gstin_pattern
model_pattern-IsWithin = numbered-IsWithin model_end gstin_end ends
  where
    ends : IsWithin model_end gstin_end
    ends = (λ c e. e, (entity→alphanumeric, (λ c e. e, (λ c e. e, tt))))

-- A GSTIN that the shared model accepts has 15 characters; the sandbox's GST client reports it as valid
-- and active, and the activity hands its name on.
pub full_match-validate_gstin :
    (gstin : String)
    → full_match model_pattern gstin ≡ true
    → (validate_gst validate_gstin gstin
        ≡ record { gstin = gstin; valid = true; trade_name = some "Sandbox Enterprise Pvt. Ltd." })
      × ((validate_gstin gstin).status ≡ "Active")
      × (count gstin ≡ 15)
unfolding validate_gst validate_gstin
full_match-validate_gstin gstin h = rw valid (refl, refl, full_match-count model_pattern gstin h)
  where
    valid : match gstin_pattern gstin ≡ true
    valid = full_match-match model_pattern gstin_pattern gstin model_pattern-IsWithin h
