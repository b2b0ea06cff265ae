-- ===== src/Receivers/Tests.antt =====
-- The files of two namespaces, one without a name.
use telemetry_controller.Prelude.{
  String, ◌≡◌, ◌↔◌, refl, false, some, List, [], ◌∷◌, In, lookup, string_eq,
}
use telemetry_controller.Values.{texts}
use telemetry_controller.Sample.{acme}
use telemetry_controller.Receivers.{create_include_list, generate_default_kubernetes_receiver}
use telemetry_controller.Receivers.Includes.{IsIncluded, receiver_includes}

include_test : create_include_list ("web" ∷ "" ∷ []) false ≡ "/var/log/pods/web_*/*/*.log" ∷ []
unfolding create_include_list
include_test = refl

receiver_includes_example :
    (ps : List String) × (lookup "include"
        (generate_default_kubernetes_receiver ("web" ∷ "" ∷ []) false acme)
      ≡ some (texts ps))
    × ((p : String) → In p ps ↔ IsIncluded acme ("web" ∷ "" ∷ []) p)
receiver_includes_example = receiver_includes ("web" ∷ "" ∷ []) false acme
