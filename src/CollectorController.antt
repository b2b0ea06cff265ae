-- ===== src/CollectorController.antt =====
-- controllers/telemetry/collector_controller.go: the reconciliation of a collector. Objects holds
-- what it writes: an object that is reconciled stands as it is built, and the OpenTelemetryCollector
-- as the arguments that OtelCollector builds it of.
pub mod Resource
pub mod Objects
pub mod Creation
pub mod Accounts
pub mod Granted
pub mod Created
pub mod Reported
pub mod Writes
pub mod Written
mod Tests
use telemetry_controller.Prelude.{
  ℕ, String, Bool, true, false, not, ◌&&◌, Option, none, some, List, [], ◌∷◌, ◌++◌, map, items,
  length, string_eq, nat_eq, ◌==◌, ◌⧺◌, option_instance, list_instance, if◌then◌else◌,
}
use telemetry_controller.Api.{NamespacedName, LabelSelector, state_ready, state_failed, Tenant}
use telemetry_controller.Utils.{normalize_string_slice}
use telemetry_controller.Problem.{ProblemHandler, add}
use telemetry_controller.Cluster.{
  Error, wrap, combine, Result, ok, err, Exec, pure, wrapping, ◌>>=◌, ◌>>◌, Client,
}
use telemetry_controller.Components.{OutputWithSecretData}
use telemetry_controller.Processors.{MemoryLimiter}
use telemetry_controller.Receivers.{EventsToLogs}
use telemetry_controller.Extensions.{Platform}
use telemetry_controller.ConfGen.{OtelColConfigInput}
use telemetry_controller.ConfGen.Assembly.{OtelConfig, assemble_config}
use telemetry_controller.Collector.{Collector, build_config_input_for_collector}
use telemetry_controller.Collector.Credentials.{AuthSecret, auth_secret}
use telemetry_controller.Collector.Input.{
  validate_config_input, errors_is, is_tenant_failed, is_no_resources,
}
use telemetry_controller.Collector.Rbac.{
  ClusterRole, ServiceAccount, ClusterRoleBinding, cluster_role, service_account,
  cluster_role_binding,
}
use telemetry_controller.CollectorController.Resource.{
  CollectorSpec, CollectorStatus, CollectorResource, set_defaults, set_collector_problems,
  clear_collector_problems, add_collector_problem, collector_status_eq,
}
use telemetry_controller.CollectorController.Objects.{
  OtelCollector, Desired, role, account, binding, secret, agent, Operator,
}
use telemetry_controller.CollectorController.Creation.{
  lift, combined, errors_of, unless_error, own, reconcile_cluster_role, reconcile_service_account,
  reconcile_cluster_role_binding, account_of, reconcile_rbac, valid, rights, desired, deploy, apply,
  checked, configured, handle_collector_creation,
}

-- What Reconcile returns: nothing to do, a time in seconds after which to come back, or an error.
-- A panic is none of these.
pub data Outcome : Type 0 where
  done : Outcome
  requeue_after : ℕ → Outcome
  failed : Error → Outcome
  panicked : Outcome

module _ {W : Type 0} (o : Operator W) where
  -- What handleCollectorReconcileError writes.
  pub failed_status : Error → CollectorStatus → CollectorStatus
  failed_status e s =
      let problem = add_collector_problem (o.client.text e) s in
      record problem { state = state_failed }

  pub ready_status : List String → CollectorStatus → CollectorStatus
  ready_status tenants s =
      let ready = record s { tenants = some tenants; state = state_ready } in
      clear_collector_problems ready

  -- The outcome of a write of the status, given what it means if it succeeds, and the errors before.
  pub reported : Outcome → (Error → Error) → Result (Unit {0}) → Outcome
  reported outcome before (ok _) = outcome
  reported outcome before (err e) = failed (before (wrap "failed updating collector status" e))

  -- handleCollectorReconcileError
  unfoldable pub handle_collector_reconcile_error :
      String → CollectorStatus → Error → W → Outcome × W
  unfolding failed_status reported
  handle_collector_reconcile_error name s e w =
      let r = o.update_collector name (failed_status e s) w in
      if o.client.is_conflict e
      then (requeue_after 1, w)
      else if errors_is is_tenant_failed e
      then (requeue_after 20, w)
      else if errors_is is_no_resources e
      then (done, w)
      else (reported (failed e) (combine e) r.0, r.1)

  -- The end of Reconcile: the status is written only if it changed.
  pub finish : String → CollectorStatus → List String → W → Outcome × W
  unfolding reported ready_status
  finish name s tenants w =
      let ready = ready_status tenants s in
      let r = o.update_collector name ready w in
      if collector_status_eq s ready then (done, w) else (reported done (λ e. e) r.0, r.1)

  pub conclude : String → CollectorStatus → Option (Result (List String)) × W → Outcome × W
  unfolding finish
  conclude name s (none, w) = (panicked, w)
  conclude name s (some (err e), w) = handle_collector_reconcile_error name s e w
  conclude name s (some (ok tenants), w) = finish name s tenants w

  -- Reconcile. A collector that is gone is no error.
  unfoldable pub reconcile : String → W → Outcome × W
  unfolding conclude
  reconcile name w =
      let r = o.get_collector name w in
      elim r.0 [
        | err e ↦ if o.client.is_not_found e then (done, r.1) else (failed e, r.1)
        | ok resource ↦
            conclude name resource.status
              (handle_collector_creation o (set_defaults resource.name resource.spec) r.1)
      ]
