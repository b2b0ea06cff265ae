-- ===== src/ConfGen/Gates.antt =====
-- otel_conf_gen.go: assembleAdditionalArgs. The panic of a failed type assertion is `none`.
pub mod Panics
use telemetry_controller.Prelude.{
  String, Bool, true, false, ◌&&◌, ◌||◌, Option, none, some, List, [], ◌∷◌, nat_eq, ◌==◌,
  if◌then◌else◌, contains_text,
}
use telemetry_controller.Processors.{Processor, settings, transform}
use telemetry_controller.ConfGen.{OtelColConfigInput, Processors, generate_processors}

-- What one processor says: the assertion fails on what is no transform processor.
flattens : Processor → Option Bool
flattens (settings v) = none
flattens (transform t) = some t.flatten_data

-- An answer of true ends the loop, and a failed assertion panics.
flatten_or : Option Bool → Option Bool → Option Bool
flatten_or none rest = none
flatten_or (some true) rest = some true
flatten_or (some false) rest = rest

-- The constraint of the feature gate, a loop over the processors in the order of the range.
is_flatten_enabled : Processors → Option Bool
is_flatten_enabled [] = some false
is_flatten_enabled ((name, p) ∷ rest) =
    let later = is_flatten_enabled rest in
    if contains_text name "transform" then flatten_or (flattens p) later else later

args_of : Option Bool → Option (List (String × String))
args_of none = none
args_of (some true) = some (("feature-gates", "transform.flatten.logs") ∷ [])
args_of (some false) = some []

unfoldable pub assemble_additional_args : Processors → Option (List (String × String))
unfolding args_of is_flatten_enabled flatten_or flattens contains_text
assemble_additional_args processors = args_of (is_flatten_enabled processors)
