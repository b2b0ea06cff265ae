-- ===== src/ConfGen/Assembly/Routed.antt =====
-- otel_conf_gen.go: the tables of the routing connectors name only pipelines of the configuration.
use telemetry_controller.Prelude.{String, All, IsKey, string_eq}
use telemetry_controller.Extensions.{Platform}
use telemetry_controller.Connectors.Routed.{Routes}
use telemetry_controller.ConfGen.{OtelColConfigInput}
use telemetry_controller.ConfGen.Service.{generate_routing_connectors}
use telemetry_controller.ConfGen.Service.Routed.{IsServed, routing-AllRoute}
use telemetry_controller.ConfGen.Assembly.{otel_config_of, assemble_config}

module _ (i : OtelColConfigInput) (good : IsServed i) where
  -- If the resources of a collector hold what they list, then every pipeline that the table of a
  -- routing connector names, of a tenant, a subscription or a bridge, is in the configuration that
  -- AssembleConfig returns. The default pipelines of a tenant, which its own settings give, are not
  -- in the table.
  pub assemble_config-routed :
      (opaque : String → String) (p : Platform)
      → All
          (λ e. Routes (λ k. IsKey k (assemble_config opaque p i).0.pipelines) e.1)
          (generate_routing_connectors i)
  unfolding assemble_config otel_config_of
  assemble_config-routed opaque p = routing-AllRoute i good
