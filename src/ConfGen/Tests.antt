-- ===== src/ConfGen/Tests.antt =====
-- The configuration of one tenant.
use telemetry_controller.Prelude.{
  ◌≡◌, refl, inl, inr, true, false, none, some, [], ◌∷◌, All, map, Bool-cases, ◌==◌, lookup, insert,
  copy, string_eq, contains_text,
}
use telemetry_controller.Api.{Subscription}
use telemetry_controller.Sample.{
  acme, file_output, all_logs, disk_name, bridge_to_globex, subscription_of,
}
use telemetry_controller.Components.{find_outputs_for_subscription}
use telemetry_controller.Processors.{generate_metrics_processors}
use telemetry_controller.Pipelines.{generate_metrics_pipelines}
use telemetry_controller.ConfGen.{OtelColConfigInput, generate_processors}
use telemetry_controller.ConfGen.Gates.{assemble_additional_args}
use telemetry_controller.ConfGen.Gates.Panics.{assemble_additional_args-none}
use telemetry_controller.ConfGen.Service.{
  generate_named_pipelines, assemble_pipelines, names_of_tenant,
}
use telemetry_controller.ConfGen.Service.Parts.{IsDefined}
use telemetry_controller.ConfGen.Service.Defined.{IsConsistent, assemble_pipelines-IsDefined}
use telemetry_controller.ConfGen.Service.Limiter.{with_limiter, assemble_pipelines-map}

-- A tenant with one subscription, which has one output.
abbrev input_of : Subscription → OtelColConfigInput
input_of s = record {
  relations = record {
    tenants = acme ∷ [];
    subscriptions = (record { namespace = s.namespace; name = s.name }, s) ∷ [];
    bridges = bridge_to_globex ∷ [];
    outputs_with_secret_data =
        record { output = file_output "disk" "acme"; secret = record { entries = [] } } ∷ [];
    tenant_subscription_map =
        ("acme", some (record { namespace = s.namespace; name = s.name } ∷ [])) ∷ [];
    subscription_output_map =
        (record { namespace = s.namespace; name = s.name }, some (disk_name ∷ [])) ∷ [];
    allocated = true;
  };
  memory_limiter = record {
    check_interval = "1s";
    memory_limit_mib = 0;
    memory_spike_limit_mib = 0;
    memory_limit_percentage = 75;
    memory_spike_percentage = 25;
  };
  events_to_logs = none;
  debug = false;
  dry_run_mode = false;
  is_axoflow_distribution = true;
}

abbrev input : OtelColConfigInput
input = input_of all_logs

pipelines_test :
    map (λ e. e.0) (assemble_pipelines input)
    ≡ "logs/tenant_acme" ∷ "metrics/tenant" ∷ "metrics/output" ∷ "metrics/output_bytes"
      ∷ "logs/tenant_acme_subscription_web_all" ∷ "logs/output_web_all_web_disk" ∷ []
unfolding assemble_pipelines generate_named_pipelines generate_processors lookup insert copy
    generate_metrics_processors find_outputs_for_subscription generate_metrics_pipelines
pipelines_test = refl

input-IsConsistent : IsConsistent input
unfolding names_of_tenant lookup
input-IsConsistent = record {
  tenants = ((acme, inl refl, refl), tt);
  subscriptions = λ tenant. elim (Bool-cases ("acme" == tenant)) [
    | inl same ↦ rw (same, names_of_tenant, lookup) ((all_logs, inl refl, refl), tt)
    | inr other ↦ rw (other, names_of_tenant, lookup) tt
  ];
}

assemble_pipelines-IsDefined_example : All (λ e. IsDefined input e.1) (assemble_pipelines input)
assemble_pipelines-IsDefined_example = assemble_pipelines-IsDefined input input-IsConsistent

assemble_pipelines-map_example :
    assemble_pipelines input ≡ map with_limiter (generate_named_pipelines input)
assemble_pipelines-map_example = assemble_pipelines-map input

abbrev transformer : Subscription
transformer = subscription_of "transform-logs"

transform_word : contains_text transformer.name "transform" ≡ true
unfolding contains_text
transform_word = refl

assemble_additional_args-none_example :
    assemble_additional_args (generate_processors (input_of transformer)) ≡ none
assemble_additional_args-none_example =
    assemble_additional_args-none (input_of transformer)
      (record { namespace = "web"; name = "transform-logs" }) transformer (inl refl) transform_word
      (refl, tt)
