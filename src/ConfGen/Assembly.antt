-- ===== src/ConfGen/Assembly.antt =====
-- otel_conf_gen.go: the exporters, the connectors, the telemetry, and the whole of AssembleConfig.
pub mod Connected
pub mod Received
pub mod Exported
pub mod Resolved
pub mod Outputs
pub mod Roots
pub mod Linked
pub mod References
pub mod Closed
pub mod Routed
mod Tests
use telemetry_controller.Prelude.{
  String, Bool, true, false, Option, List, [], ◌∷◌, ◌++◌, map, copy, string_eq, if◌then◌else◌,
}
use telemetry_controller.Values.{Value, text, number, Config, config, list}
use telemetry_controller.Pipelines.{Pipeline}
use telemetry_controller.Processors.{Processor}
use telemetry_controller.Connectors.{RoutingConnector}
use telemetry_controller.Connectors.Constant.{generate_count_connectors, generate_bytes_connectors}
use telemetry_controller.Extensions.{Platform}
use telemetry_controller.Exporters.{
  Exporters, generate_debug_exporters, generate_metrics_exporters, generate_otlp_grpc_exporters,
  generate_otlp_http_exporters, generate_fluentforward_exporters, generate_file_exporter,
  generate_elasticsearch_exporters, generate_aws_s3_exporters,
}
use telemetry_controller.ConfGen.{
  OtelColConfigInput, Pipelines, Processors, generate_processors, generate_receivers,
}
use telemetry_controller.ConfGen.Service.{
  Extensions, generate_extensions, generate_routing_connectors, assemble_pipelines,
}
use telemetry_controller.ConfGen.Gates.{assemble_additional_args}

-- The exporters of a run that is not dry.
live_exporters : (String → String) → OtelColConfigInput → Exporters
live_exporters opaque i =
    let base = if i.debug then copy [] generate_debug_exporters else [] in
    let m1 = copy base generate_metrics_exporters in
    let m2 = copy m1 (generate_otlp_grpc_exporters i.relations) in
    let m3 = copy m2 (generate_otlp_http_exporters i.relations opaque) in
    let m4 = copy m3 (generate_fluentforward_exporters i.relations i.is_axoflow_distribution) in
    let m5 = copy m4 (generate_file_exporter i.relations) in
    let m6 = copy m5 (generate_elasticsearch_exporters i.relations) in
    copy m6 (generate_aws_s3_exporters i.relations)

unfoldable pub generate_exporters : (String → String) → OtelColConfigInput → Exporters
unfolding live_exporters
generate_exporters opaque i =
    if i.dry_run_mode then generate_debug_exporters else live_exporters opaque i

-- The two kinds of values that generateConnectors stores.
pub data Connector : Type 0 where
  constant : Value → Connector
  routing : RoutingConnector → Connector

constants : OtelColConfigInput → Config
constants i =
    if i.dry_run_mode
    then []
    else (if i.is_axoflow_distribution
        then copy (copy [] generate_count_connectors) generate_bytes_connectors
        else copy [] generate_count_connectors)

-- The routing connectors are stored after the constant ones.
unfoldable pub generate_connectors : OtelColConfigInput → List (String × Connector)
unfolding constants
generate_connectors i =
    copy (map (λ e. (e.0, constant e.1)) (constants i))
      (map (λ e. (e.0, routing e.1)) (generate_routing_connectors i))

-- A value of the logs' level is only there when debugging.
unfoldable pub generate_telemetry : OtelColConfigInput → Config
generate_telemetry i =
    (
      "metrics",
      config (
          ("level", text "detailed")
          ∷ (
            "readers",
            list (
                config (
                  (
                    "pull",
                    config (
                        (
                          "exporter",
                          config (
                              (
                                "prometheus",
                                config (("host", text "") ∷ ("port", number 8888) ∷ []),
                              )
                              ∷ []),
                        )
                        ∷ []),
                  )
                  ∷ [])
                ∷ []),
          )
          ∷ []),
    )
    ∷ (if i.debug then ("logs", config (("level", text "debug") ∷ [])) ∷ [] else [])

-- otelv1beta1.Config, with its service.
pub record OtelConfig : Type 0 where
  pub receivers : List (String × Config)
  pub exporters : Exporters
  pub processors : Processors
  pub connectors : List (String × Connector)
  pub extensions : Extensions
  pub service_extensions : Option (List String)
  pub telemetry : Config
  pub pipelines : Pipelines

unfoldable pub otel_config_of : (String → String) → Platform → OtelColConfigInput → OtelConfig
otel_config_of opaque p i =
    let (extensions, names) = generate_extensions p i in
    record {
      receivers = generate_receivers i;
      exporters = generate_exporters opaque i;
      processors = generate_processors i;
      connectors = generate_connectors i;
      extensions = extensions;
      service_extensions = names;
      telemetry = generate_telemetry i;
      pipelines = assemble_pipelines i;
    }

-- AssembleConfig. The arguments are missing where the assertion on a processor panics.
unfoldable pub assemble_config :
    (String → String) → Platform → OtelColConfigInput → OtelConfig × Option (List (String × String))
assemble_config opaque p i =
    (otel_config_of opaque p i, assemble_additional_args (generate_processors i))
