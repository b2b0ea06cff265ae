-- ===== src/Connectors/Named.antt =====
-- routing_connector.go: the name of the connector of a tenant.
use telemetry_controller.Prelude.{String, ◌≡◌, refl, List, [], ◌∷◌, ◌⧺◌}
use telemetry_controller.Api.{NamespacedName, RouteConfig, Subscription}
use telemetry_controller.Components.{sort_namespaced_names}
use telemetry_controller.Connectors.{
  RoutingConnector, populate_routing_connector_table, new_routing_connector, conditions_from,
  generate_routing_connector_for_tenants_subscriptions,
}

populate_keeps_name :
    (cs : List (String × List String)) (rc : RoutingConnector)
    → (populate_routing_connector_table cs rc).name ≡ rc.name
unfolding populate_routing_connector_table
populate_keeps_name [] rc = refl
populate_keeps_name ((c, ps) ∷ cs) rc = populate_keeps_name cs _

pub tenants_connector_name :
    (tenant : String) (config : RouteConfig) (ns : List NamespacedName)
    (ss : List (NamespacedName × Subscription))
    → (generate_routing_connector_for_tenants_subscriptions tenant config ns ss).name
      ≡ "routing/tenant_" ⧺ tenant ⧺ "_subscriptions"
unfolding generate_routing_connector_for_tenants_subscriptions new_routing_connector
tenants_connector_name tenant config ns ss =
    populate_keeps_name (conditions_from tenant ss (sort_namespaced_names ns) [])
      (new_routing_connector ("routing/tenant_" ⧺ tenant ⧺ "_subscriptions") config)
