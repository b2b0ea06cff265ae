-- ===== src/Processors.antt =====
-- pkg/resources/otel_conf_gen/pipeline/components/processor: the processors' settings.
use telemetry_controller.Prelude.{
  ℕ, String, Bool, true, false, not, ◌&&◌, none, some, List, [], ◌∷◌, ◌++◌, map, nat_eq, string_eq,
  ◌==◌, ◌⧺◌, if◌then◌else◌,
}
use telemetry_controller.Api.{Batch, TransformStatement, Tenant}
use telemetry_controller.Values.{Value, text, number, flag, Config, config, list, texts}
use telemetry_controller.Values.Json.{nonempty}
use telemetry_controller.Pipelines.{Pipeline}

-- AttributesProcessorAction, as its JSON leaves out what is empty.
insert_value : String → String → Value
insert_value key v = config (("action", text "insert") ∷ ("key", text key) ∷ nonempty "value" v)

insert_from : String → String → Value
insert_from key attribute =
    config (("action", text "insert") ∷ ("key", text key) ∷ ("from_attribute", text attribute) ∷ [])

attributes_processor : List Value → Value
attributes_processor actions = config (("actions", list actions) ∷ [])

unfoldable pub generate_tenant_attribute_processor : String → Value
unfolding attributes_processor insert_value
generate_tenant_attribute_processor name = attributes_processor (insert_value "tenant" name ∷ [])

unfoldable pub generate_subscription_attribute_processor : String → Value
unfolding attributes_processor insert_value
generate_subscription_attribute_processor name =
    attributes_processor (insert_value "subscription" name ∷ [])

unfoldable pub generate_output_exporter_name_processor : String → Value
unfolding attributes_processor insert_value
generate_output_exporter_name_processor name =
    attributes_processor (insert_value "exporter" name ∷ [])

-- An option that is 0 is left to the collector's default.
number_unless_zero : String → ℕ → Config
number_unless_zero key n = if n == 0 then [] else (key, number n) ∷ []

unfoldable pub generate_batch_processor_for_output : Batch → Config
unfolding number_unless_zero
generate_batch_processor_for_output b =
    (("timeout", text b.timeout) ∷ [])
    ++ number_unless_zero "send_batch_size" b.send_batch_size
    ++ number_unless_zero "send_batch_max_size" b.send_batch_max_size
    ++ elim b.metadata_keys [ none ↦ [] | some keys ↦ ("metadata_keys", texts keys) ∷ [] ]
    ++ number_unless_zero "metadata_cardinality_limit" b.metadata_cardinality_limit

-- v1alpha1.MemoryLimiter
pub record MemoryLimiter : Type 0 where
  pub check_interval : String
  pub memory_limit_mib : ℕ
  pub memory_spike_limit_mib : ℕ
  pub memory_limit_percentage : ℕ
  pub memory_spike_percentage : ℕ

unfoldable pub generate_processor_memory_limiter : MemoryLimiter → Config
unfolding number_unless_zero
generate_processor_memory_limiter m =
    (("check_interval", text m.check_interval) ∷ [])
    ++ number_unless_zero "limit_mib" m.memory_limit_mib
    ++ number_unless_zero "spike_limit_mib" m.memory_spike_limit_mib
    ++ number_unless_zero "limit_percentage" m.memory_limit_percentage
    ++ number_unless_zero "spike_limit_percentage" m.memory_spike_percentage

-- What the collector gets of a statement is what the resource says.
pub record TransformProcessorStatement : Type 0 where
  pub context : String
  pub conditions : List String
  pub statements : List String
  pub error_mode : String

pub record TransformProcessor : Type 0 where
  pub error_mode : String
  pub flatten_data : Bool
  pub trace_statements : List TransformProcessorStatement
  pub metric_statements : List TransformProcessorStatement
  pub log_statements : List TransformProcessorStatement

convert_api_statements : List TransformStatement → List TransformProcessorStatement
convert_api_statements statements =
    map
      (λ s. record {
        context = s.context;
        conditions = s.conditions;
        statements = s.statements;
        error_mode = s.error_mode;
      })
      statements

unfoldable pub generate_transform_processor_for_tenant : Tenant → TransformProcessor
unfolding convert_api_statements
generate_transform_processor_for_tenant t = record {
  error_mode = t.spec.transform.error_mode;
  flatten_data = t.spec.transform.flatten_data;
  trace_statements = convert_api_statements t.spec.transform.trace_statements;
  metric_statements = convert_api_statements t.spec.transform.metric_statements;
  log_statements = convert_api_statements t.spec.transform.log_statements;
}

-- GenerateTransformProcessorForTenantPipeline: the pipeline as the loop leaves it.
unfoldable pub generate_transform_processor_for_tenant_pipeline :
    String → Pipeline → List Tenant → Pipeline
generate_transform_processor_for_tenant_pipeline name p [] = p
generate_transform_processor_for_tenant_pipeline name p (t ∷ ts) =
    generate_transform_processor_for_tenant_pipeline name
      (if t.name == name && not (t.spec.transform.name == "")
        then record p { processors = p.processors ++ (("transform/" ⧺ t.spec.transform.name) ∷ []) }
        else p)
      ts

-- What a processor's name stands for in the configuration: a transform processor stays a struct,
-- which assembleAdditionalArgs reads, and the others are settings.
pub data Processor : Type 0 where
  settings : Value → Processor
  transform : TransformProcessor → Processor

unfoldable pub generate_filter_processor : Config
generate_filter_processor =
    ("error_mode", text "ignore")
    ∷ (
      "logs",
      config (
          (
            "log_record",
            texts (
                "resource.attributes[\"exclude-tc\"] == \"true\""
                ∷ "resource.attributes[\"exclude-fluentbit\"] == \"true\"" ∷ []),
          )
          ∷ []),
    )
    ∷ []

unfoldable pub generate_metrics_processors : List (String × Processor)
unfolding attributes_processor insert_from
generate_metrics_processors =
    ("deltatocumulative", settings (config []))
    ∷ (
      "attributes/metricattributes",
      settings (
          attributes_processor (
            insert_from "app" "k8s.pod.labels.app"
            ∷ insert_from "host" "k8s.node.name"
            ∷ insert_from "namespace" "k8s.namespace.name"
            ∷ insert_from "container" "k8s.container.name"
            ∷ insert_from "pod" "k8s.pod.name"
            ∷ [])),
    )
    ∷ []

-- FieldExtract, as its JSON leaves out what is nil.
annotation : String → String → Value
annotation tag key = config (("tag_name", text tag) ∷ ("key", text key) ∷ ("from", text "pod") ∷ [])

source : String → Value
source name = config (("name", text name) ∷ ("from", text "resource_attribute") ∷ [])

default_metadata : List String
default_metadata =
    "k8s.namespace.name" ∷ "k8s.node.name" ∷ "k8s.pod.name" ∷ "k8s.pod.uid" ∷ "k8s.pod.ip"
    ∷ "k8s.pod.start_time" ∷ "k8s.replicaset.name" ∷ "k8s.deployment.name" ∷ "k8s.cluster.uid"
    ∷ "k8s.container.name" ∷ "container.image.name" ∷ "container.image.tag" ∷ []

unfoldable pub generate_default_kubernetes_processor : Config
unfolding annotation source default_metadata
generate_default_kubernetes_processor =
    ("auth_type", text "serviceAccount")
    ∷ ("passthrough", flag false)
    ∷ ("filter", config (("node_from_env_var", text "KUBE_NODE_NAME") ∷ []))
    ∷ (
      "extract",
      config (
          ("metadata", texts default_metadata)
          ∷ ("deployment_name_from_replicaset", flag true)
          ∷ (
            "labels",
            list (
                config (
                  ("tag_name", text "all_labels")
                  ∷ ("key_regex", text ".*")
                  ∷ ("from", text "pod")
                  ∷ [])
                ∷ []),
          )
          ∷ (
            "annotations",
            list (
                annotation "exclude-tc" "telemetry.kube-logging.dev/exclude"
                ∷ annotation "exclude-fluentbit" "fluentbit.io/exclude"
                ∷ []),
          )
          ∷ []),
    )
    ∷ (
      "pod_association",
      list (
          config (("sources", list (source "k8s.namespace.name" ∷ source "k8s.pod.name" ∷ [])) ∷ [])
          ∷ []),
    )
    ∷ []
