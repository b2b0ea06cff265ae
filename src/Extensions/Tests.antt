-- ===== src/Extensions/Tests.antt =====
-- The credentials of two outputs.
use telemetry_controller.Prelude.{◌≡◌, refl}
use telemetry_controller.Api.{NamespacedName}
use telemetry_controller.Extensions.{
  basic_auth_env_var_names, basic_auth_secret_keys, bearer_auth_env_var_name,
  bearer_auth_secret_key,
}
use telemetry_controller.Extensions.Keys.{credentials_shared}

abbrev first : NamespacedName
first = record { namespace = "team-a"; name = "logs" }

abbrev second : NamespacedName
second = record { namespace = "team"; name = "a-logs" }

env_test :
    basic_auth_env_var_names first
    ≡ ("TC_BASICAUTH_TEAM_A_LOGS_USERNAME", "TC_BASICAUTH_TEAM_A_LOGS_PASSWORD")
unfolding basic_auth_env_var_names
env_test = refl

credentials_shared_example :
    (basic_auth_env_var_names first ≡ basic_auth_env_var_names second)
    × (basic_auth_secret_keys first ≡ basic_auth_secret_keys second)
    × (bearer_auth_env_var_name first ≡ bearer_auth_env_var_name second)
    × (bearer_auth_secret_key first ≡ bearer_auth_secret_key second)
credentials_shared_example = credentials_shared "team" "a" "logs"
