-- ===== src/Api/Outputs.antt =====
-- api/telemetry/v1alpha1/output_types.go: the output, with its batching and authentication. A Go
-- pointer is an Option, and a slice whose nil matters too.
use telemetry_controller.Prelude.{ℕ, String, Option, some, List, [], items, length}
use telemetry_controller.Api.Names.{NamespacedName, State}
use telemetry_controller.Api.Exporters.{
  OtlpGrpc, OtlpHttp, File, Elasticsearch, Fluentforward, AwsS3,
}

pub record Batch : Type 0 where
  pub timeout : String
  pub send_batch_size : ℕ
  pub send_batch_max_size : ℕ
  pub metadata_keys : Option (List String)
  pub metadata_cardinality_limit : ℕ

-- corev1.SecretReference
pub record SecretReference : Type 0 where
  pub name : String
  pub namespace : String

pub record BasicAuthConfig : Type 0 where
  pub secret_ref : Option SecretReference
  pub username_field : String
  pub password_field : String

pub record BearerAuthConfig : Type 0 where
  pub secret_ref : Option SecretReference
  pub token_field : String

pub record OutputAuth : Type 0 where
  pub basic_auth : Option BasicAuthConfig
  pub bearer_auth : Option BearerAuthConfig

pub record OutputSpec : Type 0 where
  pub otlp_grpc : Option OtlpGrpc
  pub fluentforward : Option Fluentforward
  pub otlp_http : Option OtlpHttp
  pub file : Option File
  pub elasticsearch : Option Elasticsearch
  pub aws_s3 : Option AwsS3
  pub authentication : Option OutputAuth
  pub batch : Option Batch

pub record OutputStatus : Type 0 where
  pub tenant : String
  pub state : State
  pub problems : Option (List String)
  pub problems_count : ℕ

pub record Output : Type 0 where
  pub namespace : String
  pub name : String
  pub spec : OutputSpec
  pub status : OutputStatus

-- Output.NamespacedName
abbrev pub output_name : Output → NamespacedName
output_name o = record { namespace = o.namespace; name = o.name }

-- Output.SetProblems
abbrev pub set_output_problems : Option (List String) → Output → Output
set_output_problems ps o = record o {
  status = record o.status { problems = ps; problems_count = length (items ps) };
}

-- Output.SetState
abbrev pub set_output_state : State → Output → Output
set_output_state s o = record o { status = record o.status { state = s } }

-- Output.SetTenant
abbrev pub set_output_tenant : String → Output → Output
set_output_tenant t o = record o { status = record o.status { tenant = t } }

-- Output.ClearProblems
abbrev pub clear_output_problems : Output → Output
clear_output_problems o = set_output_problems (some []) o
