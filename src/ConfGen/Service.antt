-- ===== src/ConfGen/Service.antt =====
-- otel_conf_gen.go: extensions, routing connectors, the named pipelines, and the memory limiter that
-- AssembleConfig puts first in each.
pub mod Extended
pub mod Every
pub mod Parts
pub mod Defined
pub mod Limiter
pub mod Connected
pub mod Keys
pub mod Routed
use telemetry_controller.Prelude.{
  ℕ, String, Bool, true, false, not, ◌&&◌, ◌||◌, Option, none, some, List, [], ◌∷◌, ◌++◌, map,
  items, lookup, insert, copy, sort, string_eq, ◌==◌, ◌⧺◌, if◌then◌else◌,
}
use telemetry_controller.Api.{
  NamespacedName, name_instance, name_eq, Output, output_name, OutputAuth, Bridge, Subscription,
  subscription_name, Tenant,
}
use telemetry_controller.Components.{
  OutputWithSecretData, ResourceRelations, find_outputs_for_subscription,
  get_exporter_name_for_output,
}
use telemetry_controller.Values.{Value, text, number, flag, Config, config, list}
use telemetry_controller.Pipelines.{
  Pipeline, generate_pipeline, generate_root_pipeline, generate_metrics_pipelines,
}
use telemetry_controller.Processors.{
  Processor, transform, settings, generate_transform_processor_for_tenant_pipeline,
}
use telemetry_controller.Connectors.{
  RoutingConnector, subscription_pipeline, output_pipeline,
  generate_routing_connector_for_tenants_subscriptions,
  generate_routing_connector_for_subscriptions_outputs, generate_routing_connector_for_bridge,
  generate_routing_connector_for_bridges_tenant_pipeline,
}
use telemetry_controller.Extensions.{
  Platform, generate_health_check_extension, generate_basic_auth_extensions_for_output,
  generate_bearer_auth_extensions_for_output, generate_file_storage_extension_for_tenant,
}
use telemetry_controller.ConfGen.{OtelColConfigInput, Processors, Pipelines, generate_processors}

abbrev pub Extensions : Type 0
Extensions = List (String × Value)

basic_extension : OutputWithSecretData → OutputAuth → Extensions → Extensions
basic_extension o a m = elim a.basic_auth [
  | none ↦ m
  | some b ↦
      insert ("basicauth/" ⧺ o.output.namespace ⧺ "_" ⧺ o.output.name)
        (generate_basic_auth_extensions_for_output o) m
]

bearer_extension : OutputWithSecretData → OutputAuth → Extensions → Extensions
bearer_extension o a m = elim a.bearer_auth [
  | none ↦ m
  | some b ↦
      insert ("bearertokenauth/" ⧺ o.output.namespace ⧺ "_" ⧺ o.output.name)
        (generate_bearer_auth_extensions_for_output o) m
]

auth_extensions : OutputWithSecretData → Option OutputAuth → Extensions → Extensions
auth_extensions o none m = m
auth_extensions o (some a) m = bearer_extension o a (basic_extension o a m)

output_extensions : List OutputWithSecretData → Extensions → Extensions
output_extensions [] m = m
output_extensions (o ∷ os) m =
    output_extensions os (auth_extensions o (let s = o.output.spec in s.authentication) m)

tenant_extensions : Platform → Bool → List Tenant → Extensions → Extensions
tenant_extensions p dry_run_mode [] m = m
tenant_extensions p dry_run_mode (t ∷ ts) m = tenant_extensions p dry_run_mode ts (
    if not dry_run_mode && t.spec.persistence_config.enable_file_storage
    then insert ("file_storage/" ⧺ t.name)
        (config
          (generate_file_storage_extension_for_tenant p t.spec.persistence_config.directory t.name))
        m
    else m)

-- The sorted names; there is no slice when there is no extension.
unfoldable pub sorted_keys : List String → Option (List String)
sorted_keys [] = none
sorted_keys (k ∷ ks) = some (sort (k ∷ ks))

unfoldable pub generate_extensions :
    Platform → OtelColConfigInput → Extensions × Option (List String)
unfolding output_extensions auth_extensions basic_extension bearer_extension tenant_extensions
    sorted_keys
generate_extensions p i =
    let health =
      if i.dry_run_mode
      then []
      else insert "health_check" (config generate_health_check_extension) [] in
    let extensions =
      tenant_extensions p i.dry_run_mode i.relations.tenants
        (output_extensions i.relations.outputs_with_secret_data health) in
    (extensions, sorted_keys (map (λ e. e.0) extensions))

abbrev pub Connectors : Type 0
Connectors = List (String × RoutingConnector)

unfoldable pub names_of_tenant : OtelColConfigInput → String → List NamespacedName
names_of_tenant i name = elim (lookup name i.relations.tenant_subscription_map) [
  | none ↦ []
  | some names ↦ items names
]

-- The rounds of the three loops of generateConnectors. A connector is stored under its name.
tenant_connector : OtelColConfigInput → Tenant → List NamespacedName → Connectors → Connectors
tenant_connector i t [] m = m
tenant_connector i t (n ∷ ns) m =
    let rc =
      generate_routing_connector_for_tenants_subscriptions t.name t.spec.route_config (n ∷ ns)
        i.relations.subscriptions in
    insert rc.name rc m

tenant_connectors : OtelColConfigInput → List Tenant → Connectors → Connectors
tenant_connectors i [] m = m
tenant_connectors i (t ∷ ts) m =
    tenant_connectors i ts (tenant_connector i t (names_of_tenant i t.name) m)

subscription_connector : Subscription → List NamespacedName → Connectors → Connectors
subscription_connector s [] m = m
subscription_connector s (o ∷ os) m =
    let rc = generate_routing_connector_for_subscriptions_outputs (subscription_name s) (o ∷ os) in
    insert rc.name rc m

subscription_connectors :
    OtelColConfigInput → List (NamespacedName × Subscription) → Connectors → Connectors
subscription_connectors i [] m = m
subscription_connectors i ((n, s) ∷ rest) m =
    subscription_connectors i rest
      (subscription_connector s (find_outputs_for_subscription i.relations (subscription_name s)) m)

bridge_connectors : List Bridge → Connectors → Connectors
bridge_connectors [] m = m
bridge_connectors (b ∷ bs) m =
    let rc = generate_routing_connector_for_bridge b in bridge_connectors bs (insert rc.name rc m)

-- The routing connectors of generateConnectors.
unfoldable pub generate_routing_connectors : OtelColConfigInput → Connectors
unfolding tenant_connectors tenant_connector names_of_tenant subscription_connectors
    subscription_connector bridge_connectors
generate_routing_connectors i = bridge_connectors i.relations.bridges (
    subscription_connectors i i.relations.subscriptions
      (tenant_connectors i i.relations.tenants []))

abbrev pub routing_subscription : NamespacedName → String
routing_subscription s = "routing/subscription_" ⧺ s.namespace ⧺ "_" ⧺ s.name ⧺ "_outputs"

-- The exporters of an output's pipeline; an output without a known exporter has no name.
unfoldable pub output_exporters : OtelColConfigInput → Output → List String
output_exporters i o =
    let name = get_exporter_name_for_output o in
    if i.dry_run_mode
    then "debug" ∷ []
    else ((if i.debug then "debug" ∷ [] else [])
        ++ (if name == ""
            then []
            else name
              ∷ "count/output_metrics"
              ∷ (if i.is_axoflow_distribution then "bytes/exporter" ∷ [] else [])))

-- The batch processor comes last.
pub output_pipeline_processors : Output → List String
output_pipeline_processors o =
    ("attributes/exporter_name_" ⧺ o.name)
    ∷ elim o.spec.batch [ none ↦ [] | some b ↦ ("batch/" ⧺ o.name) ∷ [] ]

unfoldable pub find_output : NamespacedName → List OutputWithSecretData → Option Output
find_output n [] = none
find_output n (o ∷ os) = if n == output_name o.output then some o.output else find_output n os

-- The rounds of the innermost loop of generateNamedPipelines.
output_entry :
    OtelColConfigInput → NamespacedName → NamespacedName → Option Output → Pipelines → Pipelines
output_entry i s n none m = m
output_entry i s n (some o) m =
    insert (output_pipeline s n)
      (generate_pipeline (routing_subscription s ∷ []) (output_pipeline_processors o)
        (output_exporters i o))
      m

output_entries : OtelColConfigInput → NamespacedName → List NamespacedName → Pipelines → Pipelines
output_entries i s [] m = m
output_entries i s (n ∷ ns) m =
    output_entries i s ns
      (output_entry i s n (find_output n i.relations.outputs_with_secret_data) m)

subscription_entries : OtelColConfigInput → String → List NamespacedName → Pipelines → Pipelines
subscription_entries i tenant [] m = m
subscription_entries i tenant (s ∷ ss) m = subscription_entries i tenant ss (
    output_entries i s (find_outputs_for_subscription i.relations s) (
      insert (subscription_pipeline tenant s)
        (generate_pipeline (("routing/tenant_" ⧺ tenant ⧺ "_subscriptions") ∷ [])
          (("attributes/subscription_" ⧺ s.name) ∷ []) (routing_subscription s ∷ []))
        m))

unfoldable pub events_on : OtelColConfigInput → Bool
events_on i = elim i.events_to_logs [ none ↦ false | some e ↦ true ]

-- The root pipeline with the tenant's bridges and transform processor.
unfoldable pub root_pipeline : OtelColConfigInput → String → Pipeline
root_pipeline i tenant =
    generate_transform_processor_for_tenant_pipeline tenant
      (generate_routing_connector_for_bridges_tenant_pipeline tenant
        (generate_root_pipeline i.relations.tenants tenant i.dry_run_mode (events_on i))
        i.relations.bridges)
      i.relations.tenants

-- The first loop, over the keys of the map.
first_roots :
    OtelColConfigInput → List (String × Option (List NamespacedName)) → Pipelines → Pipelines
first_roots i [] m = m
first_roots i ((tenant, subs) ∷ rest) m = first_roots i rest (
    insert ("logs/tenant_" ⧺ tenant)
      (generate_root_pipeline i.relations.tenants tenant i.dry_run_mode (events_on i)) m)

-- The loop over the tenants that the first one collected.
tenant_entries :
    OtelColConfigInput → List (String × Option (List NamespacedName)) → Pipelines → Pipelines
tenant_entries i [] m = m
tenant_entries i ((tenant, subs) ∷ rest) m = tenant_entries i rest (
    subscription_entries i tenant (names_of_tenant i tenant)
      (insert ("logs/tenant_" ⧺ tenant) (root_pipeline i tenant) m))

unfoldable pub generate_named_pipelines : OtelColConfigInput → Pipelines
unfolding first_roots tenant_entries names_of_tenant root_pipeline subscription_entries
    output_entries output_entry output_exporters output_pipeline_processors find_output events_on
generate_named_pipelines i =
    let roots = first_roots i i.relations.tenant_subscription_map [] in
    tenant_entries i i.relations.tenant_subscription_map (
      if i.dry_run_mode
      then roots
      else copy roots (generate_metrics_pipelines i.is_axoflow_distribution))

-- The loop of AssembleConfig that puts the memory limiter first.
limit_memory : Pipelines → Pipelines
limit_memory [] = []
limit_memory ((name, p) ∷ rest) =
    (name, record p { processors = "memory_limiter" ∷ p.processors }) ∷ limit_memory rest

limited : Option Processor → Pipelines → Pipelines
limited none ps = ps
limited (some p) ps = limit_memory ps

-- The pipelines of AssembleConfig.
unfoldable pub assemble_pipelines : OtelColConfigInput → Pipelines
unfolding limit_memory limited
assemble_pipelines i =
    limited (lookup "memory_limiter" (generate_processors i)) (generate_named_pipelines i)
