-- ===== src/Exporters.antt =====
-- pkg/resources/otel_conf_gen/pipeline/components/exporter: the exporters of a collector. Marshalling
-- the settings does not fail: none holds a value that JSON lacks.
pub mod Queue
pub mod Wrappers
pub mod Entries
pub mod Stored
use telemetry_controller.Prelude.{
  String, Bool, Option, none, some, List, [], ◌∷◌, insert, string_eq,
}
use telemetry_controller.Api.{Output}
use telemetry_controller.Components.{OutputWithSecretData, ResourceRelations}
use telemetry_controller.Values.{Value, text, config}
use Entries.{
  Entry, otlp_grpc_entry, otlp_http_entry, fluentforward_entry, file_entry, elasticsearch_entry,
  aws_s3_entry,
}

abbrev pub Exporters : Type 0
Exporters = List (String × Value)

-- result[name] = values, for an output that has this kind of exporter.
store : Option Entry → Exporters → Exporters
store none m = m
store (some (name, v)) m = insert name v m

-- The loop over the outputs that each kind of exporter has.
unfoldable pub generate :
    (Output → Option Entry) → List OutputWithSecretData → Exporters → Exporters
unfolding store
generate entry [] m = m
generate entry (o ∷ os) m = generate entry os (store (entry o.output) m)

unfoldable pub generate_debug_exporters : Exporters
generate_debug_exporters = ("debug", config (("verbosity", text "detailed") ∷ [])) ∷ []

-- The fields of PrometheusExporterConfig but the endpoint are empty and have omitempty.
unfoldable pub generate_metrics_exporters : Exporters
generate_metrics_exporters =
    ("prometheus/message_metrics_exporter", config (("endpoint", text ":9999") ∷ [])) ∷ []

module _ (r : ResourceRelations) where
  unfoldable pub generate_otlp_grpc_exporters : Exporters
  generate_otlp_grpc_exporters = generate (otlp_grpc_entry r) r.outputs_with_secret_data []

  unfoldable pub generate_otlp_http_exporters : (String → String) → Exporters
  generate_otlp_http_exporters opaque =
      generate (otlp_http_entry opaque r) r.outputs_with_secret_data []

  unfoldable pub generate_fluentforward_exporters : Bool → Exporters
  generate_fluentforward_exporters is_axoflow_distribution =
      generate (fluentforward_entry is_axoflow_distribution r) r.outputs_with_secret_data []

  unfoldable pub generate_file_exporter : Exporters
  generate_file_exporter = generate file_entry r.outputs_with_secret_data []

  unfoldable pub generate_elasticsearch_exporters : Exporters
  generate_elasticsearch_exporters = generate (elasticsearch_entry r) r.outputs_with_secret_data []

  unfoldable pub generate_aws_s3_exporters : Exporters
  generate_aws_s3_exporters = generate (aws_s3_entry r) r.outputs_with_secret_data []
