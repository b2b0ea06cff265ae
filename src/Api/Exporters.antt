-- ===== src/Api/Exporters.antt =====
-- api/telemetry/v1alpha1/output_types.go: the settings of each kind of exporter. A struct that is
-- embedded is a field; a component.ID is the text that it is marshalled to.
use telemetry_controller.Prelude.{String, Bool, Option, List, ℤ}
use telemetry_controller.Api.Otlp.{
  TimeoutSettings, QueueSettings, BackOffConfig, GrpcClientConfig, HttpClientConfig,
  TlsClientSetting,
}

pub record OtlpGrpc : Type 0 where
  pub queue_config : Option QueueSettings
  pub retry_config : Option BackOffConfig
  pub timeout_settings : TimeoutSettings
  pub grpc_client_config : GrpcClientConfig

pub record OtlpHttp : Type 0 where
  pub queue_config : Option QueueSettings
  pub retry_config : Option BackOffConfig
  pub http_client_config : HttpClientConfig
  pub encoding : Option String

pub record Rotation : Type 0 where
  pub max_megabytes : ℤ
  pub max_days : ℤ
  pub max_backups : ℤ
  pub local_time : Option Bool

pub record GroupBy : Type 0 where
  pub enabled : Bool
  pub resource_attribute : String
  pub max_open_files : ℤ

pub record File : Type 0 where
  pub path : String
  pub append : Bool
  pub rotation : Option Rotation
  pub format_type : String
  pub encoding : Option String
  pub compression : String
  pub flush_interval : Option String
  pub group_by : Option GroupBy

pub record ElasticsearchMapping : Type 0 where
  pub mode : Option String

pub record ElasticsearchRetry : Type 0 where
  pub enabled : Option Bool
  pub max_retries : Option ℤ
  pub initial_interval : Option String
  pub max_interval : Option String
  pub retry_on_status : List ℤ

pub record ElasticsearchFlush : Type 0 where
  pub bytes : Option ℤ
  pub interval : Option String

pub record ElasticsearchDiscover : Type 0 where
  pub on_start : Option Bool
  pub interval : Option String

pub record Elasticsearch : Type 0 where
  pub endpoint : Option String
  pub endpoints : List String
  pub cloud_id : Option String
  pub user : Option String
  pub password : Option String
  pub api_key : Option String
  pub logs_index : Option String
  pub metrics_index : Option String
  pub traces_index : Option String
  pub mapping : Option ElasticsearchMapping
  pub retry : Option ElasticsearchRetry
  pub flush : Option ElasticsearchFlush
  pub queue_config : Option QueueSettings
  pub num_workers : Option ℤ
  pub tls_setting : Option TlsClientSetting
  pub pipeline : Option String
  pub discover : Option ElasticsearchDiscover

pub record Endpoint : Type 0 where
  pub tcp_addr : Option String
  pub validate_tcp_resolution : Bool

pub record KubernetesMetadata : Type 0 where
  pub key : String
  pub include_pod_labels : Bool

pub record TcpClientSettings : Type 0 where
  pub endpoint : Option Endpoint
  pub connection_timeout : Option String
  pub tls_setting : Option TlsClientSetting
  pub shared_key : Option String

pub record Fluentforward : Type 0 where
  pub tcp_client_settings : TcpClientSettings
  pub require_ack : Option Bool
  pub tag : Option String
  pub compress_gzip : Option Bool
  pub default_labels_enabled : Option (List (String × Bool))
  pub queue_config : Option QueueSettings
  pub retry_config : Option BackOffConfig
  pub kubernetes : Option KubernetesMetadata

pub record S3UploaderConfig : Type 0 where
  pub region : String
  pub s3_bucket : String
  pub s3_base_prefix : String
  pub s3_prefix : String
  pub s3_partition_format : String
  pub s3_partition_timezone : String
  pub file_prefix : String
  pub endpoint : String
  pub role_arn : String
  pub s3_force_path_style : Bool
  pub disable_ssl : Bool
  pub acl : String
  pub storage_class : String
  pub compression : String
  pub retry_mode : String
  pub retry_max_attempts : ℤ
  pub retry_max_backoff : Option String
  pub unique_key_func_name : String

pub record ResourceAttrsToS3 : Type 0 where
  pub s3_bucket : String
  pub s3_prefix : String

pub record AwsS3 : Type 0 where
  pub s3_uploader : Option S3UploaderConfig
  pub marshaler_name : Option String
  pub encoding : Option String
  pub encoding_file_extension : String
  pub resource_attrs_to_s3 : Option ResourceAttrsToS3
  pub timeout_settings : TimeoutSettings
  pub queue_config : Option QueueSettings
  pub retry_config : Option BackOffConfig
