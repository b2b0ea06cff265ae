-- ===== src/ConfGen.antt =====
-- pkg/resources/otel_conf_gen/otel_conf_gen.go: the configuration of a collector, from the
-- resources that belong to it. Every map is an association list in the order of its range.
pub mod Service
pub mod Configured
pub mod Gates
pub mod Assembly
mod Tests
use telemetry_controller.Prelude.{
  ℕ, String, ◌≡◌, Bool, true, false, not, ◌&&◌, ◌||◌, Option, none, some, List, [], ◌∷◌, ◌++◌, map,
  items, lookup, insert, copy, sort, string_eq, ◌==◌, ◌⧺◌, if◌then◌else◌,
}
use telemetry_controller.Api.{
  NamespacedName, name_instance, Output, output_name, OutputAuth, Bridge, Subscription,
  subscription_name, Tenant,
}
use telemetry_controller.Components.{
  OutputWithSecretData, ResourceRelations, find_outputs_for_subscription,
  get_exporter_name_for_output,
}
use telemetry_controller.Values.{Value, text, number, flag, Config, config, list}
use telemetry_controller.Pipelines.{
  Pipeline, generate_pipeline, generate_root_pipeline, generate_metrics_pipelines,
}
use telemetry_controller.Processors.{
  MemoryLimiter, Processor, settings, transform, generate_processor_memory_limiter,
  generate_filter_processor, generate_metrics_processors, generate_tenant_attribute_processor,
  generate_subscription_attribute_processor, generate_output_exporter_name_processor,
  generate_batch_processor_for_output, generate_transform_processor_for_tenant,
  generate_transform_processor_for_tenant_pipeline, generate_default_kubernetes_processor,
}
use telemetry_controller.Receivers.{
  EventsToLogs, generate_default_kubernetes_receiver, generate_kubernetes_events_receiver,
}
use telemetry_controller.Connectors.{
  RoutingConnector, subscription_pipeline, output_pipeline,
  generate_routing_connector_for_tenants_subscriptions,
  generate_routing_connector_for_subscriptions_outputs, generate_routing_connector_for_bridge,
  generate_routing_connector_for_bridges_tenant_pipeline,
}
use telemetry_controller.Extensions.{
  Platform, generate_health_check_extension, generate_basic_auth_extensions_for_output,
  generate_bearer_auth_extensions_for_output, generate_file_storage_extension_for_tenant,
}

pub record OtelColConfigInput : Type 0 where
  pub relations : ResourceRelations
  pub memory_limiter : MemoryLimiter
  pub events_to_logs : Option EventsToLogs
  pub debug : Bool
  pub dry_run_mode : Bool
  pub is_axoflow_distribution : Bool

abbrev pub Processors : Type 0
Processors = List (String × Processor)

abbrev pub Pipelines : Type 0
Pipelines = List (String × Pipeline)

-- The rounds of the three loops of generateProcessors.
tenant_processors : List Tenant → Processors → Processors
tenant_processors [] m = m
tenant_processors (t ∷ ts) m =
    let m' =
      insert ("attributes/tenant_" ⧺ t.name) (settings (generate_tenant_attribute_processor t.name))
        m in
    tenant_processors ts (
      if t.spec.transform.name == ""
      then m'
      else insert ("transform/" ⧺ t.spec.transform.name)
          (transform (generate_transform_processor_for_tenant t)) m')

subscription_processors : List (NamespacedName × Subscription) → Processors → Processors
subscription_processors [] m = m
subscription_processors ((n, s) ∷ rest) m = subscription_processors rest (
    insert ("attributes/subscription_" ⧺ s.name)
      (settings (generate_subscription_attribute_processor s.name)) m)

-- A batch processor, if the output has one.
with_batch : Output → Processors → Processors
with_batch o m = elim o.spec.batch [
  | none ↦ m
  | some b ↦
      insert ("batch/" ⧺ o.name) (settings (config (generate_batch_processor_for_output b))) m
]

output_processors : List OutputWithSecretData → Processors → Processors
output_processors [] m = m
output_processors (o ∷ os) m = output_processors os (
    with_batch o.output (
      insert ("attributes/exporter_name_" ⧺ o.output.name)
        (settings (generate_output_exporter_name_processor (get_exporter_name_for_output o.output)))
        m))

base_processors : MemoryLimiter → Processors
base_processors limiter =
    copy
      (("k8s_attributes", settings (config generate_default_kubernetes_processor))
        ∷ ("memory_limiter", settings (config (generate_processor_memory_limiter limiter)))
        ∷ ("filter/exclude", settings (config generate_filter_processor))
        ∷ [])
      generate_metrics_processors

unfoldable pub generate_processors : OtelColConfigInput → Processors
unfolding base_processors tenant_processors subscription_processors output_processors with_batch
generate_processors i = output_processors i.relations.outputs_with_secret_data (
    subscription_processors i.relations.subscriptions
      (tenant_processors i.relations.tenants (base_processors i.memory_limiter)))

pub selects : List String → Tenant → Bool
selects [] t = t.spec.select_from_all_namespaces
selects (ns ∷ rest) t = true

-- A round of the loop of generateReceivers, for the tenant that has the name, if one does.
tenant_receivers :
    Bool
    → Option EventsToLogs
    → String
    → Option Tenant
    → List (String × Config)
    → List (String × Config)
tenant_receivers dry_run_mode events name none m = m
tenant_receivers dry_run_mode events name (some t) m =
    let namespaces = items t.status.log_source_namespaces in
    let m' =
      insert ("file_log/" ⧺ name) (generate_default_kubernetes_receiver namespaces dry_run_mode t)
        m in
    if selects namespaces t
    then elim events [
      | none ↦ m'
      | some e ↦
          insert ("k8s_events/" ⧺ name)
            (generate_kubernetes_events_receiver namespaces dry_run_mode t e) m'
    ]
    else m

-- slices.IndexFunc by the tenant's name, and the tenant there.
find_tenant_named : String → List Tenant → Option Tenant
find_tenant_named name [] = none
find_tenant_named name (t ∷ ts) = if name == t.name then some t else find_tenant_named name ts

receivers_of :
    OtelColConfigInput
    → List (String × Option (List NamespacedName))
    → List (String × Config)
    → List (String × Config)
receivers_of i [] m = m
receivers_of i ((name, subs) ∷ rest) m = receivers_of i rest (
    tenant_receivers i.dry_run_mode i.events_to_logs name
      (find_tenant_named name i.relations.tenants) m)

unfoldable pub generate_receivers : OtelColConfigInput → List (String × Config)
unfolding receivers_of tenant_receivers find_tenant_named selects
generate_receivers i = receivers_of i i.relations.tenant_subscription_map []
