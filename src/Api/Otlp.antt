-- ===== src/Api/Otlp.antt =====
-- api/telemetry/v1alpha1/otlp_config.go: settings that exporters share. A pointer is an Option; a
-- slice is a list where the code does not tell nil from empty; a map has one entry for each key.
use telemetry_controller.Prelude.{String, Bool, Option, List, ℤ}

pub record TimeoutSettings : Type 0 where
  pub timeout : Option String

pub record QueueBatch : Type 0 where
  pub flush_timeout : String
  pub min_size : Option ℤ
  pub max_size : Option ℤ
  pub sizer : Option String
  pub metadata_keys : List String

pub record QueueSettings : Type 0 where
  pub num_consumers : Option ℤ
  pub queue_size : Option ℤ
  pub sizer : Option String
  pub wait_for_result : Option Bool
  pub block_on_overflow : Option Bool
  pub batch : Option QueueBatch

pub record BackOffConfig : Type 0 where
  pub initial_interval : Option String
  pub randomization_factor : Option String
  pub multiplier : Option String
  pub max_interval : Option String
  pub max_elapsed_time : Option String

pub record KeepaliveClientConfig : Type 0 where
  pub time : Option String
  pub timeout : Option String
  pub permit_without_stream : Bool

pub record TlsSetting : Type 0 where
  pub ca_file : String
  pub ca_pem : String
  pub include_system_ca_certs_pool : Bool
  pub cert_file : String
  pub cert_pem : String
  pub key_file : String
  pub key_pem : String
  pub min_version : String
  pub max_version : String
  pub cipher_suites : List String
  pub reload_interval : Option String
  pub curve_preferences : List String

pub record TlsClientSetting : Type 0 where
  pub tls_setting : TlsSetting
  pub insecure : Bool
  pub insecure_skip_verify : Bool
  pub server_name : String

pub record Authentication : Type 0 where
  pub authenticator_id : Option String

pub record GrpcClientConfig : Type 0 where
  pub endpoint : Option String
  pub compression : Option String
  pub tls_setting : Option TlsClientSetting
  pub keepalive : Option KeepaliveClientConfig
  pub read_buffer_size : Option ℤ
  pub write_buffer_size : Option ℤ
  pub wait_for_ready : Option Bool
  pub headers : Option (List (String × String))
  pub balancer_name : Option String
  pub authority : Option String
  pub auth : Option Authentication

pub record CompressionParams : Type 0 where
  pub level : Option ℤ

pub record CookiesConfig : Type 0 where
  pub enabled : Bool

pub record HttpClientConfig : Type 0 where
  pub endpoint : Option String
  pub proxy_url : Option String
  pub tls_setting : Option TlsClientSetting
  pub read_buffer_size : Option ℤ
  pub write_buffer_size : Option ℤ
  pub timeout : Option String
  pub headers : Option (List (String × String))
  pub auth : Option Authentication
  pub compression : Option String
  pub compression_params : Option CompressionParams
  pub max_idle_conns : Option ℤ
  pub max_idle_conns_per_host : Option ℤ
  pub max_conns_per_host : Option ℤ
  pub idle_conn_timeout : Option String
  pub disable_keep_alives : Option Bool
  pub http2_read_idle_timeout : Option String
  pub http2_ping_timeout : Option String
  pub cookies : Option CookiesConfig
