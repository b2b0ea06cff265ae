-- ===== src/Json/Otlp.antt =====
-- The json tags of otlp_config.go.
use telemetry_controller.Prelude.{String, ◌++◌}
use telemetry_controller.Api.{
  TimeoutSettings, KeepaliveClientConfig, TlsSetting, TlsClientSetting, Authentication,
  GrpcClientConfig, CompressionParams, CookiesConfig, HttpClientConfig,
}
use telemetry_controller.Values.{Value, text, flag, Config, config}
use telemetry_controller.Values.Json.{int, optional, nullable, nonempty, if_set, elements, entries}

unfoldable pub timeout_fields : TimeoutSettings → Config
timeout_fields t = optional text "timeout" t.timeout

unfoldable pub keepalive_value : KeepaliveClientConfig → Value
keepalive_value k = config (
    optional text "time" k.time
    ++ optional text "timeout" k.timeout
    ++ if_set "permit_without_stream" k.permit_without_stream)

unfoldable pub tls_fields : TlsSetting → Config
tls_fields t =
    nonempty "ca_file" t.ca_file
    ++ nonempty "ca_pem" t.ca_pem
    ++ if_set "include_system_ca_certs_pool" t.include_system_ca_certs_pool
    ++ nonempty "cert_file" t.cert_file
    ++ nonempty "cert_pem" t.cert_pem
    ++ nonempty "key_file" t.key_file
    ++ nonempty "key_pem" t.key_pem
    ++ nonempty "min_version" t.min_version
    ++ nonempty "max_version" t.max_version
    ++ elements text "cipher_suites" t.cipher_suites
    ++ optional text "reload_interval" t.reload_interval
    ++ elements text "curve_preferences" t.curve_preferences

unfoldable pub tls_client_value : TlsClientSetting → Value
tls_client_value t = config (
    tls_fields t.tls_setting
    ++ if_set "insecure" t.insecure
    ++ if_set "insecure_skip_verify" t.insecure_skip_verify
    ++ nonempty "server_name_override" t.server_name)

unfoldable pub authentication_value : Authentication → Value
authentication_value a = config (optional text "authenticator" a.authenticator_id)

unfoldable pub grpc_client_fields : GrpcClientConfig → Config
grpc_client_fields c =
    nullable text "endpoint" c.endpoint
    ++ optional text "compression" c.compression
    ++ optional tls_client_value "tls" c.tls_setting
    ++ optional keepalive_value "keepalive" c.keepalive
    ++ optional int "read_buffer_size" c.read_buffer_size
    ++ optional int "write_buffer_size" c.write_buffer_size
    ++ optional flag "wait_for_ready" c.wait_for_ready
    ++ optional (entries text) "headers" c.headers
    ++ optional text "balancer_name" c.balancer_name
    ++ optional text "authority" c.authority
    ++ optional authentication_value "auth" c.auth

unfoldable pub compression_params_value : CompressionParams → Value
compression_params_value c = config (optional int "level" c.level)

unfoldable pub cookies_value : CookiesConfig → Value
cookies_value c = config (if_set "enabled" c.enabled)

unfoldable pub http_client_fields : (String → String) → HttpClientConfig → Config
http_client_fields opaque c =
    optional text "endpoint" c.endpoint
    ++ optional text "proxy_url" c.proxy_url
    ++ optional tls_client_value "tls" c.tls_setting
    ++ optional int "read_buffer_size" c.read_buffer_size
    ++ optional int "write_buffer_size" c.write_buffer_size
    ++ optional text "timeout" c.timeout
    ++ optional (entries (λ s. text (opaque s))) "headers" c.headers
    ++ optional authentication_value "auth" c.auth
    ++ optional text "compression" c.compression
    ++ optional compression_params_value "compression_params" c.compression_params
    ++ optional int "max_idle_conns" c.max_idle_conns
    ++ optional int "max_idle_conns_per_host" c.max_idle_conns_per_host
    ++ optional int "max_conns_per_host" c.max_conns_per_host
    ++ optional text "idle_conn_timeout" c.idle_conn_timeout
    ++ optional flag "disable_keep_alives" c.disable_keep_alives
    ++ optional text "http2_read_idle_timeout" c.http2_read_idle_timeout
    ++ optional text "http2_ping_timeout" c.http2_ping_timeout
    ++ optional cookies_value "cookies" c.cookies
