-- ===== src/ConfGen/Assembly/Linked.antt =====
-- otel_conf_gen.go: what the pipelines read from and write to is in the configuration.
use telemetry_controller.Prelude.{String, All, string_eq}
use telemetry_controller.Api.{name_instance}
use telemetry_controller.ConfGen.{OtelColConfigInput}
use telemetry_controller.ConfGen.Service.{generate_named_pipelines}
use telemetry_controller.ConfGen.Service.Every.{named-Every}
use telemetry_controller.ConfGen.Assembly.Resolved.{IsResolved, Links, subscription-Links}
use telemetry_controller.ConfGen.Assembly.Outputs.{output-Links, metrics-Links}
use telemetry_controller.ConfGen.Assembly.Roots.{first-Links, root-Links}

module _ (opaque : String → String) (i : OtelColConfigInput) (good : IsResolved i) where
  pub named-Links : All (λ e. (Links opaque i) e.1) (generate_named_pipelines i)
  named-Links = named-Every i (Links opaque i) (record {
    first = first-Links opaque i good;
    root = root-Links opaque i good;
    subscription = subscription-Links opaque i good;
    output = output-Links opaque i good;
    metrics = metrics-Links opaque i good;
  })
