-- ===== src/ConfGen/Assembly/Tests.antt =====
-- A tenant that reads one namespace, with a subscription and an output, in a run that is not dry.
use telemetry_controller.Prelude.{
  All, IsKey, subst, String, ◌≡◌, refl, sym, ap, ◌∙◌, inl, inr, true, false, none, some, List, [],
  ◌∷◌, In, Bool-cases, ◌==◌, lookup, insert, copy, string_eq, arith,
}
use telemetry_controller.Api.{Output, OutputAuth, NamespacedName, OtlpGrpc, name_instance, Tenant}
use telemetry_controller.Sample.{acme, file_output, all_logs, all_name, disk_name, bridge_to_globex}
use telemetry_controller.Extensions.{Platform}
use telemetry_controller.Components.{
  OutputWithSecretData, find_tenant_for_output, find_outputs_for_subscription,
  sort_namespaced_names,
}
use telemetry_controller.ConfGen.{OtelColConfigInput}
use telemetry_controller.Pipelines.{
  generate_pipeline, filter_empty_pipelines, generate_metrics_pipelines,
}
use telemetry_controller.Connectors.{
  generate_routing_connector_for_tenants_subscriptions, generate_routing_connector_for_bridge,
}
use telemetry_controller.Connectors.Constant.{generate_count_connectors, generate_bytes_connectors}
use telemetry_controller.ConfGen.Service.{
  names_of_tenant, find_output, generate_named_pipelines, generate_routing_connectors,
}
use telemetry_controller.ConfGen.Assembly.{generate_connectors, assemble_config}
use telemetry_controller.ConfGen.Assembly.Resolved.{IsResolved}
use telemetry_controller.ConfGen.Assembly.References.{Refers, references-IsKey}
use telemetry_controller.Exporters.Entries.{otlp_grpc_body, otlp_grpc_entry, each, for_tenant}
use telemetry_controller.Connectors.Routed.{Routes}
use telemetry_controller.ConfGen.Service.Routed.{IsServed}
use telemetry_controller.ConfGen.Assembly.Routed.{assemble_config-routed}
use telemetry_controller.ConfGen.Assembly.Closed.{IsClosed, assemble_config-IsClosed}

abbrev reader : Tenant
reader = record acme {
  status = record {
    subscriptions = some (all_name ∷ []);
    log_source_namespaces = some ("shop" ∷ []);
    connected_bridges = some ("out" ∷ []);
    state = "ready";
    problems = none;
    problems_count = 0;
  };
}

-- The subscription with the given outputs in its status.
abbrev input_with : List NamespacedName → OtelColConfigInput
input_with outputs = record {
  relations = record {
    tenants = reader ∷ [];
    subscriptions = (all_name, all_logs) ∷ [];
    bridges = bridge_to_globex ∷ [];
    outputs_with_secret_data =
        record { output = file_output "disk" "acme"; secret = record { entries = [] } } ∷ [];
    tenant_subscription_map = ("acme", some (all_name ∷ [])) ∷ [];
    subscription_output_map = (all_name, some outputs) ∷ [];
    allocated = true;
  };
  memory_limiter = record {
    check_interval = "1s";
    memory_limit_mib = 0;
    memory_spike_limit_mib = 0;
    memory_limit_percentage = 75;
    memory_spike_percentage = 25;
  };
  events_to_logs = none;
  debug = true;
  dry_run_mode = false;
  is_axoflow_distribution = true;
}

abbrev input : OtelColConfigInput
input = input_with (disk_name ∷ [])

abbrev linux : Platform
linux = record { goos = "linux"; windows_directory = "" }

abbrev redacted : String → String
redacted secret = "[REDACTED]"

input-IsResolved : IsResolved input
unfolding names_of_tenant lookup find_outputs_for_subscription
input-IsResolved = record {
  distinct = λ t u at there same. only t at ∙ sym (only u there);
  known = ((reader, inl refl, refl), tt);
  listed = λ t at set e.
      ground (arith, ap (λ x. let y : Tenant = x in names_of_tenant input y.name) (only t at), e);
  selected = λ t at e. ground (
    arith,
    ap (λ x. let y : Tenant = x in let st = y.status in st.log_source_namespaces) (only t at),
    e,
  );
  subscribed = λ tenant. elim (Bool-cases ("acme" == tenant)) [
    | inl same ↦
        rw (same, names_of_tenant, lookup) ((all_logs, inl refl, refl, λ e. ground (arith, e)), tt)
    | inr other ↦ rw (other, names_of_tenant, lookup) tt
  ];
}
  where
    only : (t : Tenant) → In t (reader ∷ []) → t ≡ reader
    only t (inl e) = e
    only t (inr h) = absurd h

assemble_config-IsClosed_example : IsClosed (assemble_config redacted linux input).0
assemble_config-IsClosed_example = assemble_config-IsClosed redacted linux input input-IsResolved

-- The bridge ends at the tenant itself.
abbrev looped : OtelColConfigInput
looped = record input {
  relations = record input.relations {
    bridges =
        record bridge_to_globex {
          spec = record { source_tenant = "acme"; target_tenant = "acme"; condition = "true" };
        }
        ∷ [];
  };
}

looped-IsServed : IsServed looped
unfolding names_of_tenant lookup find_outputs_for_subscription find_output
looped-IsServed = record {
  named = (refl, tt);
  owned = (("acme", inl refl), tt);
  outputs = λ s n at. elim (Bool-cases (all_name == s)) [
    | inl same ↦
        subst
          (λ x. (o : Output) × (find_output x looped.relations.outputs_with_secret_data ≡ some o))
          (sym (only n (rw (same, find_outputs_for_subscription, lookup) at at)))
          (file_output "disk" "acme", refl)
    | inr other ↦ absurd (rw (other, find_outputs_for_subscription, lookup) at at)
  ];
  bridges = ((some (all_name ∷ []), refl), tt);
}
  where
    only : (n : NamespacedName) → In n (disk_name ∷ []) → n ≡ disk_name
    only n (inl e) = e
    only n (inr h) = absurd h

assemble_config-routed_example :
    All
      (λ e. Routes (λ k. IsKey k (assemble_config redacted linux looped).0.pipelines) e.1)
      (generate_routing_connectors looped)
assemble_config-routed_example = assemble_config-routed looped looped-IsServed redacted linux

-- A subscription that has outputs in its spec and none in its status: its pipeline writes to a
-- routing connector that the configuration does not have.
abbrev unrouted : String
unrouted = "routing/subscription_web_all_outputs"

unrouted_exporter_test :
    lookup "logs/tenant_acme_subscription_web_all" (generate_named_pipelines (input_with []))
    ≡ some (record {
      receivers = "routing/tenant_acme_subscriptions" ∷ [];
      processors = "attributes/subscription_all" ∷ [];
      exporters = unrouted ∷ [];
    })
unfolding generate_named_pipelines names_of_tenant lookup insert copy generate_metrics_pipelines
    find_outputs_for_subscription generate_pipeline filter_empty_pipelines
unrouted_exporter_test = refl

unrouted_connector_test : lookup unrouted (generate_connectors (input_with [])) ≡ none
unfolding generate_connectors generate_routing_connectors lookup insert copy
    find_outputs_for_subscription generate_count_connectors generate_bytes_connectors
    generate_routing_connector_for_tenants_subscriptions generate_routing_connector_for_bridge
    names_of_tenant sort_namespaced_names
unrouted_connector_test = refl

-- An OTLP output with credentials.
abbrev basic : OutputAuth
basic = record {
  basic_auth = some (record { secret_ref = none; username_field = ""; password_field = "" });
  bearer_auth = none;
}

abbrev otlp : OtlpGrpc
otlp = record {
  queue_config = none;
  retry_config = none;
  timeout_settings = record { timeout = none };
  grpc_client_config = record {
    endpoint = some "collector:4317";
    compression = none;
    tls_setting = none;
    keepalive = none;
    read_buffer_size = none;
    write_buffer_size = none;
    wait_for_ready = none;
    headers = none;
    balancer_name = none;
    authority = none;
    auth = none;
  };
}

abbrev secured : OutputWithSecretData
secured =
    let disk = file_output "disk" "acme" in
    let spec = disk.spec in
    record {
      output = record disk {
        spec = record spec { file = none; otlp_grpc = some otlp; authentication = some basic };
      };
      secret = record { entries = [] };
    }

abbrev secured_input : OtelColConfigInput
secured_input =
    let r = input.relations in
    record input { relations = record r { outputs_with_secret_data = secured ∷ [] } }

references-IsKey_example :
    Refers linux secured_input secured (inl refl) (otlp_grpc_body secured.output otlp reader).1
unfolding otlp_grpc_entry each for_tenant find_tenant_for_output find_outputs_for_subscription
    lookup
references-IsKey_example =
    references-IsKey linux secured_input secured (inl refl) basic reader refl
      (inl (λ e. ground (arith, e))) refl refl redacted (otlp_grpc_body secured.output otlp reader)
      (inl refl)
