-- ===== src/Collector/Credentials.antt =====
-- collector_manager.go: the secret with the credentials of the outputs, and the environment
-- variables of the collector that refer to its keys.
pub mod Resolved
use telemetry_controller.Prelude.{
  String, Option, none, some, List, [], ◌∷◌, ◌++◌, copy, string_eq, ◌⧺◌,
}
use telemetry_controller.Api.{output_name, OutputAuth, BasicAuthConfig, BearerAuthConfig}
use telemetry_controller.Components.{OutputWithSecretData}
use telemetry_controller.Extensions.{
  basic_auth_env_var_names, basic_auth_secret_keys, basic_auth_secret_data,
  bearer_auth_env_var_name, bearer_auth_secret_key, bearer_auth_secret_data,
}
use telemetry_controller.Collector.{Collector}

abbrev pub SecretData : Type 0
SecretData = List (String × String)

-- corev1.Secret, as far as AuthSecret sets it.
pub record AuthSecret : Type 0 where
  pub name : String
  pub namespace : String
  pub entries : SecretData

-- corev1.EnvVar whose value is that of a secret's key.
pub record SecretEnvVar : Type 0 where
  pub name : String
  pub secret_name : String
  pub key : String

abbrev authentication_of : OutputWithSecretData → Option OutputAuth
authentication_of o = let spec = o.output.spec in spec.authentication

unfoldable pub auth_secret_name : String → String
auth_secret_name collector = "otelcollector-" ⧺ collector ⧺ "-auth"

unfoldable pub add_basic : OutputWithSecretData → Option BasicAuthConfig → SecretData → SecretData
add_basic o none m = m
add_basic o (some a) m = copy m (basic_auth_secret_data o a)

unfoldable pub add_bearer : OutputWithSecretData → Option BearerAuthConfig → SecretData → SecretData
add_bearer o none m = m
add_bearer o (some a) m = copy m (bearer_auth_secret_data o a)

unfoldable pub add_credentials : OutputWithSecretData → Option OutputAuth → SecretData → SecretData
add_credentials o none m = m
add_credentials o (some a) m = add_bearer o a.bearer_auth (add_basic o a.basic_auth m)

-- The loop of AuthSecret.
unfoldable pub auth_data : List OutputWithSecretData → SecretData → SecretData
auth_data [] m = m
auth_data (o ∷ os) m = auth_data os (add_credentials o (authentication_of o) m)

-- AuthSecret
unfoldable pub auth_secret : Collector → List OutputWithSecretData → AuthSecret
auth_secret collector outputs = record {
  name = auth_secret_name collector.name;
  namespace = collector.control_namespace;
  entries = auth_data outputs [];
}

unfoldable pub basic_env :
    String → OutputWithSecretData → Option BasicAuthConfig → List SecretEnvVar
basic_env secret o none = []
basic_env secret o (some a) =
    let (user_var, pass_var) = basic_auth_env_var_names (output_name o.output) in
    let (user_key, pass_key) = basic_auth_secret_keys (output_name o.output) in
    record { name = user_var; secret_name = secret; key = user_key }
    ∷ record { name = pass_var; secret_name = secret; key = pass_key }
    ∷ []

unfoldable pub bearer_env :
    String → OutputWithSecretData → Option BearerAuthConfig → List SecretEnvVar
bearer_env secret o none = []
bearer_env secret o (some a) =
    record {
      name = bearer_auth_env_var_name (output_name o.output);
      secret_name = secret;
      key = bearer_auth_secret_key (output_name o.output);
    }
    ∷ []

unfoldable pub output_env : String → OutputWithSecretData → Option OutputAuth → List SecretEnvVar
output_env secret o none = []
output_env secret o (some a) = basic_env secret o a.basic_auth ++ bearer_env secret o a.bearer_auth

-- The loop over the outputs in OtelCollector.
unfoldable pub credential_env : Collector → List OutputWithSecretData → List SecretEnvVar
credential_env collector [] = []
credential_env collector (o ∷ os) =
    output_env (auth_secret_name collector.name) o (authentication_of o)
    ++ credential_env collector os
