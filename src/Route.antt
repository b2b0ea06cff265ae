-- ===== src/Route.antt =====
-- controllers/telemetry/route_controller.go: the reconciliation of a tenant. The handlers mutate
-- the tenant that they are given, and what they wrote stays when they fail: their state is the
-- tenant beside the cluster.
pub mod Status
pub mod Handlers
pub mod Writes
pub mod Outcome
mod Tests
use telemetry_controller.Prelude.{
  String, Bool, true, false, not, Option, some, List, [], ◌∷◌, string_eq, ◌==◌, ◌⧺◌, if◌then◌else◌,
}
use telemetry_controller.Api.{
  state_ready, state_failed, Tenant, clear_tenant_problems, set_tenant_state,
}
use telemetry_controller.Problem.{add_tenant_problem}
use telemetry_controller.Cluster.{Error, wrap, combine, Result, ok, err, Exec, wrapping, Client}
use Status.{tenant_status_eq}
use Handlers.{Steps, handle_log_source_namespaces, handle_owned_resources, handle_bridge_resources}

-- tenantReconcileStep
pub record TenantReconcileStep (W : Type 0) : Type 0 where
  pub name : String
  pub fn : Steps W (Unit {0})

-- The result of a step, with the name of the one that failed.
pub data Ran : Type 0 where
  done : Ran
  failed_at : String → Error → Ran

module _ {W : Type 0} (c : Client W) where
  unfoldable pub steps : List (TenantReconcileStep W)
  steps =
      record { name = "handle log source namespaces"; fn = handle_log_source_namespaces c }
      ∷ record { name = "handle owned resources"; fn = handle_owned_resources c }
      ∷ record { name = "handle bridge resources"; fn = handle_bridge_resources c }
      ∷ []

  -- The loop over the steps, which stops at the first error.
  pub run_steps : List (TenantReconcileStep W) → Tenant × W → Ran × (Tenant × W)
  run_steps [] st = (done, st)
  run_steps (step ∷ rest) st =
      let r = step.fn st in
      elim r.0 [ ok _ ↦ run_steps rest r.1 | err e ↦ (failed_at step.name e, r.1) ]

  -- What handleTenantReconcileError writes, and the error that it wraps.
  pub failed_tenant : Tenant → String → Error → Tenant
  failed_tenant t step e =
      set_tenant_state state_failed
        (add_tenant_problem (c.text (wrap ("failed to " ⧺ step ⧺ " for tenant " ⧺ t.name) e)) t)

  -- The error of a step that failed with `wrapped`, by the result of writing that.
  pub step_error : Error → Result (Unit {0}) → Error
  step_error wrapped (ok _) = wrapped
  step_error wrapped (err f) = combine wrapped (wrap "failed updating tenant status" f)

  -- handleTenantReconcileError
  unfoldable pub handle_tenant_reconcile_error : Tenant → String → Error → Exec W (Unit {0})
  unfolding failed_tenant step_error
  handle_tenant_reconcile_error t step e w =
      let r = c.update_tenant (failed_tenant t step e) w in
      (err (step_error (wrap ("failed to " ⧺ step ⧺ " for tenant " ⧺ t.name) e) r.0), r.1)

  -- What is written after the last step.
  pub ready_tenant : Tenant → Tenant
  ready_tenant t = clear_tenant_problems (set_tenant_state state_ready t)

  -- The end of Reconcile: the status is written only if it changed.
  pub finish : Tenant → Tenant → Exec W (Unit {0})
  unfolding ready_tenant
  finish original t w =
      let ready = ready_tenant t in
      if tenant_status_eq original.status ready.status
      then (ok tt, w)
      else wrapping "failed updating tenant status" (c.update_tenant ready) w

  -- What follows the steps.
  pub conclude : Tenant → Ran × (Tenant × W) → Result (Unit {0}) × W
  unfolding finish
  conclude original (done, (t, w)) = finish original t w
  conclude original (failed_at step e, (t, w)) = handle_tenant_reconcile_error t step e w

  -- Reconcile. A tenant that is gone is no error.
  unfoldable pub reconcile : String → Exec W (Unit {0})
  unfolding run_steps steps conclude
  reconcile name w =
      let r = c.get_tenant name w in
      elim r.0 [
        | err e ↦ if c.is_not_found e then (ok tt, r.1) else (err e, r.1)
        | ok t ↦ conclude t (run_steps steps (t, r.1))
      ]
