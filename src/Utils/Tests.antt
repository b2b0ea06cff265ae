-- ===== src/Utils/Tests.antt =====
-- The helpers at concrete inputs.
use telemetry_controller.Prelude.{String, ◌≡◌, ◌↔◌, refl, List, [], ◌∷◌, In, arith, text_le}
use telemetry_controller.Utils.{normalize_string_slice}
use telemetry_controller.Utils.Canonical.{
  IsStrict, normalize_string_slice-IsStrict, normalize_string_slice-In,
  normalize_string_slice-canonical,
}

abbrev given : List String
given = "web" ∷ "db" ∷ "web" ∷ []

normalize_test : normalize_string_slice given ≡ "db" ∷ "web" ∷ []
unfolding normalize_string_slice text_le
normalize_test = refl

normalize_string_slice-IsStrict_example : IsStrict (normalize_string_slice given)
normalize_string_slice-IsStrict_example = normalize_string_slice-IsStrict given

normalize_string_slice-In_example : In "db" (normalize_string_slice given) ↔ In "db" given
normalize_string_slice-In_example = normalize_string_slice-In "db" given

normalize_string_slice-canonical_example :
    normalize_string_slice given ≡ normalize_string_slice ("db" ∷ "web" ∷ [])
normalize_string_slice-canonical_example =
    normalize_string_slice-canonical given ("db" ∷ "web" ∷ [])
      (λ a. (λ h. ground arith, λ h. ground arith))
