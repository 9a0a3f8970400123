-- ===== src/Tests/Gst.antt =====
-- A GSTIN, and the witness of the theorem on its validation.
use Prim.Native.String.{count}
use project_k_platform.Prelude.{String, ◌≡◌, refl, true, false, some}
use project_k_platform.Sandbox.Gst.{
  full_match, model_pattern, match, gstin_pattern, validate_gst, validate_gstin,
  full_match-validate_gstin,
}

abbrev gstin : String
gstin = "27AADCB2230M1ZT"

is_gstin : full_match model_pattern gstin ≡ true
unfolding full_match
is_gstin = refl

full_match-validate_gstin_example :
    (validate_gst validate_gstin gstin
      ≡ record { gstin = gstin; valid = true; trade_name = some "Sandbox Enterprise Pvt. Ltd." })
    × ((validate_gstin gstin).status ≡ "Active")
    × (count gstin ≡ 15)
full_match-validate_gstin_example = full_match-validate_gstin gstin is_gstin

-- The sandbox lets a zero stand for the entity number, and a newline at the end; the model does not.
lenient : match gstin_pattern "27AADCB2230M0ZT\n" ≡ true
unfolding match
lenient = refl

strict : full_match model_pattern "27AADCB2230M0ZT" ≡ false
unfolding full_match
strict = refl
