-- ===== src/Connectors/Tests.antt =====
-- A tenant's pipeline with a bridge.
use telemetry_controller.Prelude.{
  String, ◌≡◌, ◌↔◌, lookup, insert, text_le, refl, ◌⊎◌, inl, List, [], ◌∷◌, In, ◌⧺◌, contains,
  string_eq,
}
use telemetry_controller.Api.{NamespacedName, name_instance, RouteConfig, Bridge, Subscription}
use telemetry_controller.Components.{sort_namespaced_names}
use telemetry_controller.Pipelines.{Pipeline}
use telemetry_controller.Sample.{all_logs, all_name, subscription_of, bridge_to_globex}
use telemetry_controller.Connectors.{
  generate_routing_connector_for_tenants_subscriptions,
  generate_routing_connector_for_bridges_tenant_pipeline,
}
use telemetry_controller.Connectors.Table.{IsRouted, IsSubscribed, tenant_table_exact}
use telemetry_controller.Connectors.Bridging.{bridges_complete, bridges_sound}

abbrev root : Pipeline
root = record { receivers = "file_log/acme" ∷ []; processors = []; exporters = [] }

abbrev bridges : List Bridge
bridges = bridge_to_globex ∷ []

bridged_test :
    (generate_routing_connector_for_bridges_tenant_pipeline "acme" root bridges).exporters
    ≡ "routing/bridge_out" ∷ []
unfolding generate_routing_connector_for_bridges_tenant_pipeline contains
bridged_test = refl

bridges_complete_example :
    In "routing/bridge_out"
      (generate_routing_connector_for_bridges_tenant_pipeline "acme" root bridges).receivers
    ⊎ In "routing/bridge_out"
        (generate_routing_connector_for_bridges_tenant_pipeline "acme" root bridges).exporters
bridges_complete_example =
    bridges_complete "acme" root bridges bridge_to_globex (inl refl) (inl refl)

bridges_sound_example :
    (In "routing/bridge_out"
        (generate_routing_connector_for_bridges_tenant_pipeline "acme" root bridges).exporters
      → In {A = String} "routing/bridge_out" []
        ⊎ ((b : Bridge) × In b bridges
            × (b.spec.source_tenant ≡ "acme")
            × ("routing/bridge_out" ≡ "routing/bridge_" ⧺ b.name)))
    × (In "routing/bridge_out"
          (generate_routing_connector_for_bridges_tenant_pipeline "acme" root bridges).receivers
        → In {A = String} "routing/bridge_out" ("file_log/acme" ∷ [])
          ⊎ ((b : Bridge) × In b bridges
              × (b.spec.target_tenant ≡ "acme")
              × ("routing/bridge_out" ≡ "routing/bridge_" ⧺ b.name)))
bridges_sound_example = bridges_sound "acme" root bridges "routing/bridge_out"

-- Two subscriptions with one condition.
abbrev names : List NamespacedName
names = record { namespace = "web"; name = "rest" } ∷ all_name ∷ []

abbrev subscriptions : List (NamespacedName × Subscription)
subscriptions =
    (all_name, all_logs)
    ∷ (record { namespace = "web"; name = "rest" }, subscription_of "rest")
    ∷ []

abbrev plain : RouteConfig
plain = record { default_pipelines = []; error_mode = "" }

shared_test :
    (generate_routing_connector_for_tenants_subscriptions "acme" plain names subscriptions).table
    ≡ record {
      condition = "true";
      pipelines =
          "logs/tenant_acme_subscription_web_all" ∷ "logs/tenant_acme_subscription_web_rest" ∷ [];
    }
      ∷ []
unfolding generate_routing_connector_for_tenants_subscriptions sort_namespaced_names lookup insert
    text_le
shared_test = refl

tenant_table_exact_example :
    IsRouted
      (generate_routing_connector_for_tenants_subscriptions "acme" plain names subscriptions)
      "true"
      "logs/tenant_acme_subscription_web_rest"
    ↔ ((n : NamespacedName) × In n names
        × IsSubscribed "true" "logs/tenant_acme_subscription_web_rest" "acme" subscriptions n)
tenant_table_exact_example =
    tenant_table_exact "true" "logs/tenant_acme_subscription_web_rest" "acme" subscriptions plain
      names
