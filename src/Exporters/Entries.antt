-- ===== src/Exporters/Entries.antt =====
-- The bodies of the loops over the outputs: what an output adds to the exporters of a kind. An
-- output without that kind, or for which no tenant is found, is skipped.
use telemetry_controller.Prelude.{String, Bool, Option, none, some, ◌⧺◌, if◌then◌else◌}
use telemetry_controller.Api.{
  Output, output_name, OutputAuth, Authentication, Tenant, OtlpGrpc, OtlpHttp, Fluentforward,
  Elasticsearch, AwsS3,
}
use telemetry_controller.Cluster.{ok, err}
use telemetry_controller.Components.{
  ResourceRelations, find_tenant_for_output, get_exporter_name_for_output, exporter_for,
}
use telemetry_controller.Values.{Value, config}
use telemetry_controller.Json.Exporters.{file_fields}
use telemetry_controller.Exporters.Queue.{QueueWrapper}
use telemetry_controller.Exporters.Wrappers.{
  map_to_otlp_grpc_wrapper, otlp_grpc_wrapper_fields, map_to_otlp_http_wrapper,
  otlp_http_wrapper_fields, map_to_fluent_forward_wrapper, fluent_forward_wrapper_fields,
  map_to_elasticsearch_wrapper, elasticsearch_wrapper_fields, map_to_aws_s3_wrapper,
  aws_s3_wrapper_fields,
}

-- The name of an exporter and its values.
abbrev pub Entry : Type 0
Entry = String × Value

-- The queue, with the storage of a tenant whose files are persisted.
unfoldable pub with_storage : Tenant → QueueWrapper → QueueWrapper
with_storage t q =
    if (let spec = t.spec in
      let persistence = spec.persistence_config in persistence.enable_file_storage)
    then record q { storage = some ("file_storage/" ⧺ t.name) }
    else q

authenticator : String → Output → Option Authentication
authenticator kind o = some (record { authenticator_id = some (kind ⧺ o.namespace ⧺ "_" ⧺ o.name) })

auth_of : Output → OutputAuth → Option Authentication → Option Authentication
auth_of o a before = elim a.basic_auth [
  | some _ ↦ authenticator "basicauth/" o
  | none ↦ elim a.bearer_auth [ some _ ↦ authenticator "bearertokenauth/" o | none ↦ before ]
]

-- The reference to the extension that authenticates, in place of what the settings say.
unfoldable pub with_auth : Output → Option Authentication → Option Authentication
unfolding auth_of authenticator
with_auth o before = elim (let spec = o.spec in spec.authentication) [
  | none ↦ before
  | some a ↦ auth_of o a before
]

unfoldable pub for_tenant : ResourceRelations → Output → (Tenant → Entry) → Option Entry
for_tenant r o entry = elim (find_tenant_for_output r (output_name o)) [
  | err e ↦ none
  | ok t ↦ some (entry t)
]

-- `if settings != nil`
unfoldable pub each : {A : Type 0} → Option A → (A → Option Entry) → Option Entry
each none body = none
each (some a) body = body a

-- What an output adds, for the tenant that is found.
unfoldable pub otlp_grpc_body : Output → OtlpGrpc → Tenant → Entry
otlp_grpc_body o a t =
    let w = map_to_otlp_grpc_wrapper a in
    let c = w.grpc_client_config in
    (
      get_exporter_name_for_output o,
      config (
          otlp_grpc_wrapper_fields (record w {
            queue_config = with_storage t w.queue_config;
            grpc_client_config = record c { auth = with_auth o c.auth };
          })),
    )

unfoldable pub otlp_grpc_entry : ResourceRelations → Output → Option Entry
unfolding each for_tenant otlp_grpc_body
otlp_grpc_entry r o =
    each (let spec = o.spec in spec.otlp_grpc) (λ a. for_tenant r o (otlp_grpc_body o a))

unfoldable pub otlp_http_body : (String → String) → Output → OtlpHttp → Tenant → Entry
otlp_http_body opaque o a t =
    let w = map_to_otlp_http_wrapper a in
    let c = w.http_client_config in
    (
      get_exporter_name_for_output o,
      config (
          otlp_http_wrapper_fields opaque (record w {
            queue_config = with_storage t w.queue_config;
            http_client_config = record c { auth = with_auth o c.auth };
          })),
    )

unfoldable pub otlp_http_entry : (String → String) → ResourceRelations → Output → Option Entry
unfolding each for_tenant otlp_http_body
otlp_http_entry opaque r o =
    each (let spec = o.spec in spec.otlp_http) (λ a. for_tenant r o (otlp_http_body opaque o a))

unfoldable pub fluentforward_body : Bool → Output → Fluentforward → Tenant → Entry
fluentforward_body is_axoflow_distribution o a t =
    let w = map_to_fluent_forward_wrapper a is_axoflow_distribution in
    (
      exporter_for "fluentforwardexporter" o,
      config (
          fluent_forward_wrapper_fields
            (record w { queue_config = with_storage t w.queue_config })),
    )

unfoldable pub fluentforward_entry : Bool → ResourceRelations → Output → Option Entry
unfolding each for_tenant fluentforward_body
fluentforward_entry is_axoflow_distribution r o =
    each (let spec = o.spec in spec.fluentforward)
      (λ a. for_tenant r o (fluentforward_body is_axoflow_distribution o a))

unfoldable pub file_entry : Output → Option Entry
unfolding each
file_entry o =
    each (let spec = o.spec in spec.file)
      (λ f. some (exporter_for "file" o, config (file_fields f)))

unfoldable pub elasticsearch_body : Output → Elasticsearch → Tenant → Entry
elasticsearch_body o a t =
    let w = map_to_elasticsearch_wrapper a in
    (
      get_exporter_name_for_output o,
      config (
          elasticsearch_wrapper_fields
            (record w { queue_config = with_storage t w.queue_config; auth = with_auth o w.auth })),
    )

unfoldable pub elasticsearch_entry : ResourceRelations → Output → Option Entry
unfolding each for_tenant elasticsearch_body
elasticsearch_entry r o =
    each (let spec = o.spec in spec.elasticsearch) (λ a. for_tenant r o (elasticsearch_body o a))

unfoldable pub aws_s3_body : Output → AwsS3 → Tenant → Entry
aws_s3_body o a t =
    let w = map_to_aws_s3_wrapper a in
    (
      get_exporter_name_for_output o,
      config (aws_s3_wrapper_fields (record w { queue_config = with_storage t w.queue_config })),
    )

unfoldable pub aws_s3_entry : ResourceRelations → Output → Option Entry
unfolding each for_tenant aws_s3_body
aws_s3_entry r o = each (let spec = o.spec in spec.aws_s3) (λ a. for_tenant r o (aws_s3_body o a))
