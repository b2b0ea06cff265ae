-- ===== src/CollectorController/Creation.antt =====
-- handleCollectorCreation, and ReconcileRBAC of pkg/resources/manager/collector_manager.go.
use telemetry_controller.Prelude.{
  String, Option, none, some, List, [], ◌∷◌, ◌++◌, map, string_eq, nat_eq, ◌⧺◌, option_instance,
  list_instance, if◌then◌else◌,
}
use telemetry_controller.Api.{NamespacedName}
use telemetry_controller.Utils.{normalize_string_slice}
use telemetry_controller.Cluster.{
  Error, wrap, combine, Result, ok, err, Exec, pure, wrapping, ◌>>=◌, ◌>>◌,
}
use telemetry_controller.ConfGen.{OtelColConfigInput}
use telemetry_controller.ConfGen.Assembly.{OtelConfig, assemble_config}
use telemetry_controller.Collector.{Collector, build_config_input_for_collector}
use telemetry_controller.Collector.Credentials.{auth_secret}
use telemetry_controller.Collector.Input.{validate_config_input, errors_is, is_no_resources}
use telemetry_controller.Collector.Rbac.{cluster_role, service_account, cluster_role_binding}
use telemetry_controller.CollectorController.Objects.{
  Desired, role, account, binding, secret, agent, Operator,
}

abbrev pub lift : {W A : Type 0} → Result A → Exec W A
lift r w = (r, w)

-- errors.Combine
unfoldable pub combined : List Error → Option Error
combined [] = none
combined (e ∷ es) = elim (combined es) [ none ↦ some e | some f ↦ some (combine e f) ]

abbrev pub errors_of : {A : Type 0} → Result A → List Error
errors_of (ok a) = []
errors_of (err e) = e ∷ []

unfoldable pub unless_error : {A : Type 0} → Option Error → A → Result A
unless_error none a = ok a
unless_error (some e) a = err e

module _ {W : Type 0} (o : Operator W) (k : Collector) where
  -- The two calls that each object takes, with the texts of their errors.
  unfoldable pub own : String → Desired → Exec W (Unit {0})
  own what d =
      wrapping ("failed to set controller reference for " ⧺ what ⧺ " for collector " ⧺ k.name)
        (lift (o.set_controller_reference d))

  unfoldable pub reconcile_cluster_role : Exec W (Unit {0})
  reconcile_cluster_role =
      own "cluster role" (role (cluster_role k))
      >> wrapping ("failed to reconcile cluster role for collector " ⧺ k.name)
          (o.reconcile_resource (role (cluster_role k)))

  unfoldable pub reconcile_service_account : Exec W NamespacedName
  reconcile_service_account = do
    _ ← lift (o.set_controller_reference (account (service_account k)))
    _ ← o.reconcile_resource (account (service_account k))
    pure (let a = service_account k in record { namespace = a.namespace; name = a.name })

  unfoldable pub reconcile_cluster_role_binding : Exec W (Unit {0})
  reconcile_cluster_role_binding =
      own "cluster role binding" (binding (cluster_role_binding k))
      >> wrapping ("failed to reconcile cluster role binding for collector " ⧺ k.name)
          (o.reconcile_resource (binding (cluster_role_binding k)))

  unfoldable pub account_of : Result NamespacedName → NamespacedName
  account_of (ok n) = n
  account_of (err e) = record { namespace = ""; name = "" }

  -- ReconcileRBAC makes every attempt, and returns all that failed.
  unfoldable pub reconcile_rbac : Exec W NamespacedName
  reconcile_rbac w =
      let a = reconcile_cluster_role w in
      let b = reconcile_service_account a.1 in
      let d = reconcile_cluster_role_binding b.1 in
      (
        unless_error (combined (errors_of a.0 ++ errors_of b.0 ++ errors_of d.0)) (account_of b.0),
        d.1,
      )

  -- handleCollectorCreation from ValidateAssembledConfig on: the check, the rights, and what is
  -- reconciled with the account's name.
  unfoldable pub valid : OtelConfig → Exec W (Unit {0})
  valid config =
      wrapping
        ("failed to validate assembled OpenTelemetry Collector configuration for collector "
          ⧺ k.name)
        (lift (o.validate_assembled_config config))

  unfoldable pub rights : Exec W NamespacedName
  rights = wrapping ("failed to reconcile RBAC for collector " ⧺ k.name) reconcile_rbac

  unfoldable pub desired :
      OtelColConfigInput → OtelConfig → List (String × String) → NamespacedName → Desired
  desired input config args sa = agent (record {
    collector = k;
    otel_config = config;
    additional_args = args;
    tenants = input.relations.tenants;
    outputs = input.relations.outputs_with_secret_data;
    sa_name = sa.name;
  })

  unfoldable pub deploy :
      OtelColConfigInput
      → OtelConfig
      → List (String × String)
      → NamespacedName
      → Exec W (List String)
  deploy input config args sa = do
    _ ← own "auth secret" (secret (auth_secret k input.relations.outputs_with_secret_data))
    _ ←
        wrapping ("failed reconciling auth secret for collector " ⧺ k.name)
          (o.reconcile_resource (secret (auth_secret k input.relations.outputs_with_secret_data)))
    _ ← own "OpenTelemetryCollector" (desired input config args sa)
    _ ←
        wrapping ("failed reconciling OpenTelemetryCollector for collector " ⧺ k.name)
          (o.reconcile_resource (desired input config args sa))
    pure (normalize_string_slice (map (λ t. t.name) input.relations.tenants))

  unfoldable pub apply :
      OtelColConfigInput → OtelConfig → List (String × String) → Exec W (List String)
  apply input config args = valid config >> (rights >>= deploy input config args)

  -- ValidateConfigInput, whose ErrNoResources is passed on as it is.
  unfoldable pub checked : OtelColConfigInput → Result (Unit {0})
  checked input = elim (validate_config_input input) [
    | ok _ ↦ ok tt
    | err e ↦
        if errors_is is_no_resources e
        then err e
        else err (
            wrap
              ("failed to validate OpenTelemetry Collector configuration input for collector "
                ⧺ k.name)
              e)
  ]

  -- What follows a good input; there is no result where AssembleConfig panics.
  unfoldable pub configured : OtelColConfigInput → W → Option (Result (List String)) × W
  configured input w =
      let assembled = assemble_config o.opaque o.platform input in
      elim assembled.1 [
        | none ↦ (none, w)
        | some args ↦ let r = apply input assembled.0 args w in (some r.0, r.1)
      ]

  -- handleCollectorCreation, with the names that it sets in the status.
  unfoldable pub handle_collector_creation : W → Option (Result (List String)) × W
  unfolding checked configured apply valid rights deploy desired reconcile_rbac
      reconcile_cluster_role reconcile_service_account reconcile_cluster_role_binding own account_of
      combined unless_error
  handle_collector_creation w =
      let r =
        wrapping ("failed to build config input for collector " ⧺ k.name)
          (build_config_input_for_collector o.client k) w in
      elim r.0 [
        | err e ↦ (some (err e), r.1)
        | ok input ↦ elim (checked input) [
          | err e ↦ (some (err e), r.1)
          | ok _ ↦ configured input r.1
        ]
      ]
