-- ===== src/Connectors.antt =====
-- pkg/resources/otel_conf_gen/pipeline/components/connector/routing_connector.go: how log records
-- are routed from tenants to subscriptions, from those to outputs, and across bridges. Go goes
-- through the map of conditions in any order; here it is the one of first use.
pub mod Bridging
pub mod Constant
pub mod Named
pub mod Routed
pub mod Grouped
pub mod Table
mod Tests
use telemetry_controller.Prelude.{
  String, Bool, true, false, not, ◌||◌, Option, none, some, List, [], ◌∷◌, ◌++◌, map, lookup,
  insert, contains, string_eq, ◌==◌, ◌⧺◌, if◌then◌else◌,
}
use telemetry_controller.Api.{NamespacedName, name_instance, RouteConfig, Bridge, Subscription}
use telemetry_controller.Components.{sort_namespaced_names}
use telemetry_controller.Pipelines.{Pipeline}

pub record RoutingConnectorTableItem : Type 0 where
  pub condition : String
  pub pipelines : List String

pub record RoutingConnector : Type 0 where
  pub name : String
  pub default_pipelines : List String
  pub error_mode : String
  pub table : List RoutingConnectorTableItem

-- populateRoutingConnectorTable
populate_routing_connector_table : List (String × List String) → RoutingConnector → RoutingConnector
populate_routing_connector_table [] rc = rc
populate_routing_connector_table ((condition, pipelines) ∷ rest) rc =
    populate_routing_connector_table rest (record rc {
      table = rc.table ++ (record { condition = condition; pipelines = pipelines } ∷ []);
    })

new_routing_connector : String → RouteConfig → RoutingConnector
new_routing_connector name config = record {
  name = name;
  default_pipelines = config.default_pipelines;
  error_mode = config.error_mode;
  table = [];
}

abbrev empty_config : RouteConfig
empty_config = record { default_pipelines = []; error_mode = "" }

abbrev pub subscription_pipeline : String → NamespacedName → String
subscription_pipeline tenant s =
    "logs/tenant_" ⧺ tenant ⧺ "_subscription_" ⧺ s.namespace ⧺ "_" ⧺ s.name

abbrev pub output_pipeline : NamespacedName → NamespacedName → String
output_pipeline s o = "logs/output_" ⧺ s.namespace ⧺ "_" ⧺ s.name ⧺ "_" ⧺ o.namespace ⧺ "_" ⧺ o.name

-- The pipelines of a condition so far, and one more.
pub with_pipeline : String → Option (List String) → List String
with_pipeline pipeline none = pipeline ∷ []
with_pipeline pipeline (some before) = before ++ (pipeline ∷ [])

-- One round of the loop over the subscriptions; one that is not there is skipped.
see : String → Option Subscription → List (String × List String) → List (String × List String)
see tenant none seen = seen
see tenant (some s) seen =
    insert s.spec.condition
      (with_pipeline
        (subscription_pipeline tenant (record { namespace = s.namespace; name = s.name }))
        (lookup s.spec.condition seen))
      seen

conditions_from :
    String
    → List (NamespacedName × Subscription)
    → List NamespacedName
    → List (String × List String)
    → List (String × List String)
conditions_from tenant subscriptions [] seen = seen
conditions_from tenant subscriptions (r ∷ rs) seen =
    conditions_from tenant subscriptions rs (see tenant (lookup r subscriptions) seen)

unfoldable pub generate_routing_connector_for_tenants_subscriptions :
    String
    → RouteConfig
    → List NamespacedName
    → List (NamespacedName × Subscription)
    → RoutingConnector
unfolding populate_routing_connector_table new_routing_connector conditions_from see with_pipeline
generate_routing_connector_for_tenants_subscriptions tenant config names subscriptions =
    populate_routing_connector_table
      (conditions_from tenant subscriptions (sort_namespaced_names names) [])
      (new_routing_connector ("routing/tenant_" ⧺ tenant ⧺ "_subscriptions") config)

unfoldable pub generate_routing_connector_for_subscriptions_outputs :
    NamespacedName → List NamespacedName → RoutingConnector
unfolding new_routing_connector
generate_routing_connector_for_subscriptions_outputs s outputs =
    let rc =
      new_routing_connector ("routing/subscription_" ⧺ s.namespace ⧺ "_" ⧺ s.name ⧺ "_outputs")
        empty_config in
    record rc {
      table =
          rc.table
          ++ (record {
            condition = "true";
            pipelines = map (output_pipeline s) (sort_namespaced_names outputs);
          }
              ∷ []);
    }

unfoldable pub generate_routing_connector_for_bridge : Bridge → RoutingConnector
unfolding new_routing_connector
generate_routing_connector_for_bridge b =
    let rc = new_routing_connector ("routing/bridge_" ⧺ b.name) empty_config in
    record rc {
      table =
          rc.table
          ++ (record {
            condition = b.spec.condition;
            pipelines = ("logs/tenant_" ⧺ b.spec.target_tenant) ∷ [];
          }
              ∷ []);
    }

has_pipeline_receiver_or_exporter : Pipeline → String → Bool
has_pipeline_receiver_or_exporter p name = contains p.receivers name || contains p.exporters name

-- addConnectorToPipeline: the pipeline as it leaves it.
add_connector_to_pipeline : Pipeline → String → Bool → Bool → Pipeline
unfolding has_pipeline_receiver_or_exporter
add_connector_to_pipeline p name needs_receiver needs_exporter =
    if has_pipeline_receiver_or_exporter p name then p else record p {
      receivers = if needs_receiver then p.receivers ++ (name ∷ []) else p.receivers;
      exporters = if needs_exporter then p.exporters ++ (name ∷ []) else p.exporters;
    }

-- checkBridgeConnectorForTenant: needsReceiver, needsExporter and the name.
check_bridge_connector_for_tenant : String → Bridge → Bool × Bool × String
check_bridge_connector_for_tenant tenant b =
    (b.spec.target_tenant == tenant, b.spec.source_tenant == tenant, b.name)

-- GenerateRoutingConnectorForBridgesTenantPipeline: the pipeline as the loop leaves it.
unfoldable pub generate_routing_connector_for_bridges_tenant_pipeline :
    String → Pipeline → List Bridge → Pipeline
unfolding add_connector_to_pipeline check_bridge_connector_for_tenant
generate_routing_connector_for_bridges_tenant_pipeline tenant p [] = p
generate_routing_connector_for_bridges_tenant_pipeline tenant p (b ∷ bs) =
    let (needs_receiver, needs_exporter, name) = check_bridge_connector_for_tenant tenant b in
    generate_routing_connector_for_bridges_tenant_pipeline tenant
      (add_connector_to_pipeline p ("routing/bridge_" ⧺ name) needs_receiver needs_exporter) bs
