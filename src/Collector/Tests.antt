-- ===== src/Collector/Tests.antt =====
-- Collectors of the sample's cluster, and the theorems at them.
use telemetry_controller.Prelude.{
  ◌≡◌, ◌≢◌, ◌↔◌, ◌⊎◌, refl, true, false, none, some, [], ◌∷◌, All, IsKey, contains, lookup, insert,
  copy, starts_with, string_eq,
}
use telemetry_controller.Api.{name_instance}
use telemetry_controller.Cluster.{message, ok}
use telemetry_controller.Cluster.Writes.{Returns}
use telemetry_controller.Components.{OutputWithSecretData}
use telemetry_controller.Extensions.{
  basic_auth_secret_keys, basic_auth_secret_data, field_or, sanitize_secret_key_segment,
}
use telemetry_controller.Collector.Credentials.{
  auth_secret, auth_data, add_basic, add_bearer, add_credentials, credential_env,
}
use telemetry_controller.Collector.Credentials.Resolved.{HasCredentials, credential_env-resolved}
use telemetry_controller.Sample.{acme, disk, disk_name, all_logs, all_name, bridge_to_globex}
use telemetry_controller.ConfGen.Service.{assemble_pipelines}
use telemetry_controller.ConfGen.Service.Parts.{IsDefined}
use telemetry_controller.ConfGen.Service.Defined.{IsConsistent}
use telemetry_controller.Collector.{Subscriptions, build_config_input_for_collector}
use telemetry_controller.Collector.Consistent.{
  build_config_input_for_collector-IsConsistent, built_pipelines-IsDefined,
}
use telemetry_controller.Collector.Samples.{named, cluster, agent}
use telemetry_controller.Collector.Checks.{
  unless, collect, bridge_errors, validate_tenants, validate_subscriptions_and_bridges,
}
use telemetry_controller.Collector.Checks.Exact.{
  IsDecided, IsJoined, validate_tenants_exact, validate_subscriptions_and_bridges_exact,
}

abbrev subscriptions : Subscriptions
subscriptions = (all_name, all_logs) ∷ []

-- An output with basic authentication, and its secret.
abbrev guarded : OutputWithSecretData
guarded = record {
  output = record disk {
    spec = record disk.spec {
      authentication = some (record {
        basic_auth = some (record {
          secret_ref = some (record { name = "login"; namespace = "web" });
          username_field = "";
          password_field = "pw";
        });
        bearer_auth = none;
      });
    };
  };
  secret = record { entries = ("username", "u") ∷ ("pw", "p") ∷ [] };
}

build_test :
    (build_config_input_for_collector cluster agent []).0
    ≡ ok (record {
      relations = record {
        tenants =
            record acme { status = record acme.status { subscriptions = some (all_name ∷ []) } }
            ∷ [];
        subscriptions = (all_name, named all_name) ∷ [];
        bridges = [];
        outputs_with_secret_data = record { output = disk; secret = record { entries = [] } } ∷ [];
        tenant_subscription_map = ("acme", some (all_name ∷ [])) ∷ [];
        subscription_output_map = (all_name, some (disk_name ∷ [])) ∷ [];
        allocated = true;
      };
      memory_limiter = agent.memory_limiter;
      events_to_logs = none;
      debug = true;
      dry_run_mode = false;
      is_axoflow_distribution = false;
    })
unfolding build_config_input_for_collector insert starts_with
build_test = refl

build_config_input_for_collector-IsConsistent_example :
    Returns IsConsistent (build_config_input_for_collector cluster agent)
build_config_input_for_collector-IsConsistent_example =
    build_config_input_for_collector-IsConsistent cluster (λ n. record { from = λ w. refl }) agent

built_pipelines-IsDefined_example :
    Returns
      (λ i. All (λ e. IsDefined i e.1) (assemble_pipelines i))
      (build_config_input_for_collector cluster agent)
built_pipelines-IsDefined_example =
    built_pipelines-IsDefined cluster (λ n. record { from = λ w. refl }) agent

checks_test :
    validate_subscriptions_and_bridges (acme ∷ []) [] (bridge_to_globex ∷ [])
    ≡ message "bridge: out has a target tenant: globex that does not exist" ∷ []
unfolding validate_subscriptions_and_bridges collect bridge_errors unless contains
checks_test = refl

validate_tenants_exact_example :
    (validate_tenants (acme ∷ []) ≡ []) ↔ ((acme ∷ [] ≢ []) × All IsDecided (acme ∷ []))
validate_tenants_exact_example = validate_tenants_exact (acme ∷ [])

validate_subscriptions_and_bridges_exact_example :
    (validate_subscriptions_and_bridges (acme ∷ []) subscriptions (bridge_to_globex ∷ []) ≡ []) ↔ (
      ((subscriptions ≢ []) ⊎ (bridge_to_globex ∷ [] ≢ []))
      × All (λ e. (let spec = e.1.spec in spec.outputs) ≢ []) subscriptions
      × All (IsJoined ("acme" ∷ [])) (bridge_to_globex ∷ []))
validate_subscriptions_and_bridges_exact_example =
    validate_subscriptions_and_bridges_exact (acme ∷ []) subscriptions (bridge_to_globex ∷ [])

guarded-HasCredentials : HasCredentials guarded
unfolding lookup field_or
guarded-HasCredentials = ((("u", refl), ("p", refl)), tt)

credential_env-resolved_example :
    All
      (λ v.
        (v.secret_name ≡ (auth_secret agent (guarded ∷ [])).name)
        × IsKey v.key (auth_secret agent (guarded ∷ [])).entries)
      (credential_env agent (guarded ∷ []))
credential_env-resolved_example =
    credential_env-resolved agent (guarded ∷ []) (guarded-HasCredentials, tt)

secret_test :
    (auth_secret agent (guarded ∷ [])).entries
    ≡ ("basicauth_web_disk_username", "u") ∷ ("basicauth_web_disk_password", "p") ∷ []
unfolding auth_secret auth_data add_credentials add_basic add_bearer basic_auth_secret_data
    basic_auth_secret_keys sanitize_secret_key_segment copy insert lookup
secret_test = refl
