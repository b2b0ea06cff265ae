-- ===== src/Collector/Input.antt =====
-- IsEmpty in otel_conf_gen.go, and ValidateConfigInput in collector_manager.go, which calls it.
pub mod Unempty
use telemetry_controller.Prelude.{
  ℕ, String, ◌≡◌, refl, Bool, true, false, not, ◌&&◌, ◌||◌, List, [], ◌∷◌, ◌++◌, string_eq, nat_eq,
  ◌==◌, if◌then◌else◌,
}
use telemetry_controller.Cluster.{
  Error, client, message, wrap, combine, tenant_failed, no_resources, conversion, multierror,
  Errors, no_more, more, Result, ok, err,
}
use telemetry_controller.Components.{ResourceRelations}
use telemetry_controller.Processors.{MemoryLimiter}
use telemetry_controller.ConfGen.{OtelColConfigInput}
use telemetry_controller.Collector.Checks.{validate_tenants, validate_subscriptions_and_bridges}

abbrev is_nil : {A : Type 0} → List A → Bool
is_nil [] = true
is_nil (x ∷ xs) = false

unfoldable pub has_no_resources : ResourceRelations → Bool
has_no_resources r =
    is_nil r.tenants
    && is_nil r.subscriptions
    && is_nil r.bridges
    && is_nil r.outputs_with_secret_data
    && is_nil r.tenant_subscription_map
    && is_nil r.subscription_output_map

unfoldable pub is_zero_limiter : MemoryLimiter → Bool
is_zero_limiter m =
    m.check_interval == ""
    && m.memory_limit_mib == 0
    && m.memory_spike_limit_mib == 0
    && m.memory_limit_percentage == 0
    && m.memory_spike_percentage == 0

-- IsEmpty. The structs among the fields are the relations and the memory limiter.
unfoldable pub is_empty : OtelColConfigInput → Bool
is_empty i =
    not i.relations.allocated && has_no_resources i.relations && is_zero_limiter i.memory_limiter

errors_of : List Error → Errors
errors_of [] = no_more
errors_of (e ∷ es) = more e (errors_of es)

-- ErrorOrNil of a multierror.
unfoldable pub error_or_nil : List Error → Result (Unit {0})
unfolding errors_of
error_or_nil [] = ok tt
error_or_nil (e ∷ es) = err (multierror (errors_of (e ∷ es)))

-- ValidateConfigInput
unfoldable pub validate_config_input : OtelColConfigInput → Result (Unit {0})
validate_config_input i =
    if is_empty i
    then err no_resources
    else error_or_nil (
        validate_tenants i.relations.tenants
        ++ validate_subscriptions_and_bridges i.relations.tenants i.relations.subscriptions
            i.relations.bridges)

unfoldable mutual
  -- errors.Is, with the test for the target.
  pub errors_is : (Error → Bool) → Error → Bool
  errors_is target (wrap text e) = errors_is target e
  errors_is target (combine e f) = errors_is target e || errors_is target f
  errors_is target (multierror es) = any_is target es
  errors_is target (client text) = target (client text)
  errors_is target (message text) = target (message text)
  errors_is target tenant_failed = target tenant_failed
  errors_is target no_resources = target no_resources
  errors_is target (conversion n) = target (conversion n)

  pub any_is : (Error → Bool) → Errors → Bool
  any_is target no_more = false
  any_is target (more e es) = errors_is target e || any_is target es

abbrev pub is_tenant_failed : Error → Bool
is_tenant_failed tenant_failed = true
is_tenant_failed _ = false

abbrev pub is_no_resources : Error → Bool
is_no_resources no_resources = true
is_no_resources _ = false
