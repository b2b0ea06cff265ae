-- ===== src/Connectors/Constant.antt =====
-- connector/count_connector.go and connector/bytes_connector.go: the connectors that count logs and
-- bytes, with the structs as the maps that their json tags make.
use telemetry_controller.Prelude.{String, List, [], ◌∷◌, map}
use telemetry_controller.Values.{Value, text, Config, config, list}

attribute : String → Value
attribute key = config (("key", text key) ∷ [])

attributes : List String → Value
attributes keys = list (map attribute keys)

-- A connector of one metric of the logs.
metric : String → String → List String → Value
metric name description keys = config (
    (
      "logs",
      config (
          (name, config (("description", text description) ∷ ("attributes", attributes keys) ∷ []))
          ∷ []),
    )
    ∷ [])

abbrev pod_keys : List String
pod_keys =
    "k8s.namespace.name" ∷ "k8s.node.name" ∷ "k8s.container.name" ∷ "k8s.pod.name"
    ∷ "k8s.pod.labels.app.kubernetes.io/name" ∷ "k8s.pod.labels.app" ∷ []

unfoldable pub generate_count_connectors : Config
unfolding metric attributes attribute
generate_count_connectors =
    (
      "count/tenant_metrics",
      metric "telemetry_controller_tenant_log_count" "The number of logs from each tenant pipeline."
          ("tenant" ∷ pod_keys),
    )
    ∷ (
      "count/output_metrics",
      metric "telemetry_controller_output_log_count"
          "The number of logs sent out from each exporter."
          ("tenant" ∷ "subscription" ∷ "exporter" ∷ pod_keys),
    )
    ∷ []

unfoldable pub generate_bytes_connectors : Config
unfolding metric attributes attribute
generate_bytes_connectors =
    (
      "bytes/exporter",
      metric "otelcol_exporter_sent_log_records_bytes"
          "Bytes of log records successfully sent to destination" ("exporter" ∷ []),
    )
    ∷ []
