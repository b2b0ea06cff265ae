-- ===== src/Json/Exporters.antt =====
-- The json tags of the settings in output_types.go. Of a struct whose queue and retries the
-- exporter's wrapper shadows, the fields are those that the wrapper leaves.
use telemetry_controller.Prelude.{[], ◌∷◌, ◌++◌}
use telemetry_controller.Api.{
  Rotation, GroupBy, File, ElasticsearchMapping, ElasticsearchRetry, ElasticsearchFlush,
  ElasticsearchDiscover, Elasticsearch, Endpoint, KubernetesMetadata, TcpClientSettings,
  S3UploaderConfig, ResourceAttrsToS3, AwsS3,
}
use telemetry_controller.Values.{Value, text, flag, Config, config}
use telemetry_controller.Values.Json.{int, optional, nullable, nonempty, if_set, nonzero, elements}
use telemetry_controller.Json.Otlp.{timeout_fields, tls_client_value}

unfoldable pub rotation_value : Rotation → Value
rotation_value r = config (
    nonzero "max_megabytes" r.max_megabytes
    ++ nonzero "max_days" r.max_days
    ++ nonzero "max_backups" r.max_backups
    ++ optional flag "localtime" r.local_time)

unfoldable pub group_by_value : GroupBy → Value
group_by_value g = config (
    if_set "enabled" g.enabled
    ++ nonempty "resource_attribute" g.resource_attribute
    ++ nonzero "max_open_files" g.max_open_files)

unfoldable pub file_fields : File → Config
file_fields f =
    nonempty "path" f.path
    ++ if_set "append" f.append
    ++ optional rotation_value "rotation" f.rotation
    ++ nonempty "format" f.format_type
    ++ optional text "encoding" f.encoding
    ++ nonempty "compression" f.compression
    ++ optional text "flush_interval" f.flush_interval
    ++ optional group_by_value "group_by" f.group_by

unfoldable pub elasticsearch_mapping_value : ElasticsearchMapping → Value
elasticsearch_mapping_value m = config (optional text "mode" m.mode)

unfoldable pub elasticsearch_retry_value : ElasticsearchRetry → Value
elasticsearch_retry_value r = config (
    optional flag "enabled" r.enabled
    ++ optional int "max_retries" r.max_retries
    ++ optional text "initial_interval" r.initial_interval
    ++ optional text "max_interval" r.max_interval
    ++ elements int "retry_on_status" r.retry_on_status)

unfoldable pub elasticsearch_flush_value : ElasticsearchFlush → Value
elasticsearch_flush_value f =
    config (optional int "bytes" f.bytes ++ optional text "interval" f.interval)

unfoldable pub elasticsearch_discover_value : ElasticsearchDiscover → Value
elasticsearch_discover_value d =
    config (optional flag "on_start" d.on_start ++ optional text "interval" d.interval)

-- Without the queue and the retries.
unfoldable pub elasticsearch_fields : Elasticsearch → Config
elasticsearch_fields e =
    optional text "endpoint" e.endpoint
    ++ elements text "endpoints" e.endpoints
    ++ optional text "cloudid" e.cloud_id
    ++ optional text "user" e.user
    ++ optional text "password" e.password
    ++ optional text "api_key" e.api_key
    ++ optional text "logs_index" e.logs_index
    ++ optional text "metrics_index" e.metrics_index
    ++ optional text "traces_index" e.traces_index
    ++ optional elasticsearch_mapping_value "mapping" e.mapping
    ++ optional elasticsearch_flush_value "flush" e.flush
    ++ optional int "num_workers" e.num_workers
    ++ optional tls_client_value "tls" e.tls_setting
    ++ optional text "pipeline" e.pipeline
    ++ optional elasticsearch_discover_value "discover" e.discover

unfoldable pub endpoint_value : Endpoint → Value
endpoint_value e = config (
    nullable text "tcp_addr" e.tcp_addr
    ++ if_set "validate_tcp_resolution" e.validate_tcp_resolution)

unfoldable pub kubernetes_metadata_value : KubernetesMetadata → Value
kubernetes_metadata_value k =
    config (("key", text k.key) ∷ ("include_pod_labels", flag k.include_pod_labels) ∷ [])

unfoldable pub tcp_client_fields : TcpClientSettings → Config
tcp_client_fields t =
    nullable endpoint_value "endpoint" t.endpoint
    ++ optional text "connection_timeout" t.connection_timeout
    ++ optional tls_client_value "tls" t.tls_setting
    ++ optional text "shared_key" t.shared_key

unfoldable pub s3_uploader_value : S3UploaderConfig → Value
s3_uploader_value u = config (
    nonempty "region" u.region
    ++ nonempty "s3_bucket" u.s3_bucket
    ++ nonempty "s3_base_prefix" u.s3_base_prefix
    ++ nonempty "s3_prefix" u.s3_prefix
    ++ nonempty "s3_partition_format" u.s3_partition_format
    ++ nonempty "s3_partition_timezone" u.s3_partition_timezone
    ++ nonempty "file_prefix" u.file_prefix
    ++ nonempty "endpoint" u.endpoint
    ++ nonempty "role_arn" u.role_arn
    ++ if_set "s3_force_path_style" u.s3_force_path_style
    ++ if_set "disable_ssl" u.disable_ssl
    ++ nonempty "acl" u.acl
    ++ nonempty "storage_class" u.storage_class
    ++ nonempty "compression" u.compression
    ++ nonempty "retry_mode" u.retry_mode
    ++ nonzero "retry_max_attempts" u.retry_max_attempts
    ++ optional text "retry_max_backoff" u.retry_max_backoff
    ++ nonempty "unique_key_func_name" u.unique_key_func_name)

unfoldable pub resource_attrs_to_s3_value : ResourceAttrsToS3 → Value
resource_attrs_to_s3_value r =
    config (nonempty "s3_bucket" r.s3_bucket ++ nonempty "s3_prefix" r.s3_prefix)

-- Without the queue and the retries.
unfoldable pub aws_s3_fields : AwsS3 → Config
aws_s3_fields a =
    optional s3_uploader_value "s3uploader" a.s3_uploader
    ++ optional text "marshaler" a.marshaler_name
    ++ optional text "encoding" a.encoding
    ++ nonempty "encoding_file_extension" a.encoding_file_extension
    ++ optional resource_attrs_to_s3_value "resource_attrs_to_s3" a.resource_attrs_to_s3
    ++ timeout_fields a.timeout_settings
