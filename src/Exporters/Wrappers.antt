-- ===== src/Exporters/Wrappers.antt =====
-- otlp_exporter.go, otlphttp_exporter.go, fluent_forward_exporter.go, elasticsearch_exporter.go and
-- aws_s3_exporter.go: the structs that are marshalled. The queue and the retries of a wrapper are
-- pointers that the mapping sets.
use telemetry_controller.Prelude.{
  String, Bool, true, false, Option, none, some, List, [], ◌∷◌, ◌++◌,
}
use telemetry_controller.Api.{
  TimeoutSettings, GrpcClientConfig, HttpClientConfig, Authentication, OtlpGrpc, OtlpHttp,
  TcpClientSettings, KubernetesMetadata, Fluentforward, Elasticsearch, ElasticsearchRetry, AwsS3,
}
use telemetry_controller.Values.{text, flag, Config}
use telemetry_controller.Values.Json.{optional, entries}
use telemetry_controller.Json.Otlp.{
  timeout_fields, grpc_client_fields, http_client_fields, authentication_value,
}
use telemetry_controller.Json.Exporters.{
  tcp_client_fields, kubernetes_metadata_value, elasticsearch_fields, elasticsearch_retry_value,
  aws_s3_fields,
}
use telemetry_controller.Exporters.Queue.{
  QueueWrapper, BackOffWrapper, override, set_default_queue_settings, set_default_back_off_config,
  empty_queue, empty_back_off, queue_value, back_off_value,
}

pub record OtlpGrpcWrapper : Type 0 where
  pub queue_config : QueueWrapper
  pub retry_config : BackOffWrapper
  pub timeout_settings : TimeoutSettings
  pub grpc_client_config : GrpcClientConfig

-- mapToOTLPGRPCWrapper, of the empty wrapper. A timeout that is not set stays nil.
unfoldable pub map_to_otlp_grpc_wrapper : OtlpGrpc → OtlpGrpcWrapper
map_to_otlp_grpc_wrapper a = record {
  queue_config = set_default_queue_settings a.queue_config empty_queue;
  retry_config = set_default_back_off_config a.retry_config empty_back_off;
  timeout_settings = let t = a.timeout_settings in record { timeout = override t.timeout none };
  grpc_client_config = a.grpc_client_config;
}

unfoldable pub otlp_grpc_wrapper_fields : OtlpGrpcWrapper → Config
otlp_grpc_wrapper_fields w =
    ("sending_queue", queue_value w.queue_config)
    ∷ ("retry_on_failure", back_off_value w.retry_config)
    ∷ (timeout_fields w.timeout_settings ++ grpc_client_fields w.grpc_client_config)

pub record OtlpHttpWrapper : Type 0 where
  pub queue_config : QueueWrapper
  pub retry_config : BackOffWrapper
  pub http_client_config : HttpClientConfig

-- mapToOTLPHTTPWrapper
unfoldable pub map_to_otlp_http_wrapper : OtlpHttp → OtlpHttpWrapper
map_to_otlp_http_wrapper a = record {
  queue_config = set_default_queue_settings a.queue_config empty_queue;
  retry_config = set_default_back_off_config a.retry_config empty_back_off;
  http_client_config = a.http_client_config;
}

unfoldable pub otlp_http_wrapper_fields : (String → String) → OtlpHttpWrapper → Config
otlp_http_wrapper_fields opaque w =
    ("sending_queue", queue_value w.queue_config)
    ∷ ("retry_on_failure", back_off_value w.retry_config)
    ∷ http_client_fields opaque w.http_client_config

pub record FluentForwardWrapper : Type 0 where
  pub tcp_client_settings : TcpClientSettings
  pub require_ack : Option Bool
  pub tag : Option String
  pub compress_gzip : Option Bool
  pub default_labels_enabled : Option (List (String × Bool))
  pub queue_config : QueueWrapper
  pub retry_config : BackOffWrapper
  pub kubernetes : Option KubernetesMetadata

kubernetes_of : Bool → Option KubernetesMetadata → Option KubernetesMetadata
kubernetes_of true k = k
kubernetes_of false k = none

-- mapToFluentForwardWrapper
unfoldable pub map_to_fluent_forward_wrapper : Fluentforward → Bool → FluentForwardWrapper
unfolding kubernetes_of
map_to_fluent_forward_wrapper a is_axoflow_distribution = record {
  tcp_client_settings = a.tcp_client_settings;
  require_ack = override a.require_ack none;
  tag = override a.tag none;
  compress_gzip = override a.compress_gzip none;
  default_labels_enabled = override a.default_labels_enabled none;
  queue_config = set_default_queue_settings a.queue_config empty_queue;
  retry_config = set_default_back_off_config a.retry_config empty_back_off;
  kubernetes = kubernetes_of is_axoflow_distribution a.kubernetes;
}

unfoldable pub fluent_forward_wrapper_fields : FluentForwardWrapper → Config
fluent_forward_wrapper_fields w =
    tcp_client_fields w.tcp_client_settings
    ++ optional flag "require_ack" w.require_ack
    ++ optional text "tag" w.tag
    ++ optional flag "compress_gzip" w.compress_gzip
    ++ optional (entries flag) "default_labels_enabled" w.default_labels_enabled
    ++ ("sending_queue", queue_value w.queue_config)
      ∷ ("retry_on_failure", back_off_value w.retry_config)
      ∷ optional kubernetes_metadata_value "kubernetes_metadata" w.kubernetes

pub record ElasticsearchWrapper : Type 0 where
  pub elasticsearch : Elasticsearch
  pub queue_config : QueueWrapper
  pub retry : ElasticsearchRetry
  pub auth : Option Authentication

-- setDefaultElasticsearchRetry
unfoldable pub set_default_elasticsearch_retry : Option ElasticsearchRetry → ElasticsearchRetry
set_default_elasticsearch_retry none = record {
  enabled = some true;
  max_retries = none;
  initial_interval = none;
  max_interval = none;
  retry_on_status = [];
}
set_default_elasticsearch_retry (some r) = record r { enabled = override r.enabled (some true) }

-- mapToElasticsearchWrapper
unfoldable pub map_to_elasticsearch_wrapper : Elasticsearch → ElasticsearchWrapper
unfolding set_default_elasticsearch_retry
map_to_elasticsearch_wrapper a = record {
  elasticsearch = a;
  queue_config = set_default_queue_settings a.queue_config empty_queue;
  retry = set_default_elasticsearch_retry a.retry;
  auth = none;
}

unfoldable pub elasticsearch_wrapper_fields : ElasticsearchWrapper → Config
elasticsearch_wrapper_fields w =
    elasticsearch_fields w.elasticsearch
    ++ ("sending_queue", queue_value w.queue_config)
      ∷ ("retry", elasticsearch_retry_value w.retry)
      ∷ optional authentication_value "auth" w.auth

pub record AwsS3Wrapper : Type 0 where
  pub aws_s3 : AwsS3
  pub queue_config : QueueWrapper
  pub retry_config : BackOffWrapper

-- mapToAWSS3Wrapper
unfoldable pub map_to_aws_s3_wrapper : AwsS3 → AwsS3Wrapper
map_to_aws_s3_wrapper a = record {
  aws_s3 = a;
  queue_config = set_default_queue_settings a.queue_config empty_queue;
  retry_config = set_default_back_off_config a.retry_config empty_back_off;
}

unfoldable pub aws_s3_wrapper_fields : AwsS3Wrapper → Config
aws_s3_wrapper_fields w =
    aws_s3_fields w.aws_s3
    ++ ("sending_queue", queue_value w.queue_config)
      ∷ ("retry_on_failure", back_off_value w.retry_config)
      ∷ []
