-- ===== src/Route/Outcome.antt =====
-- When a reconciliation of a tenant reports success, and when it writes the tenant's status.
use telemetry_controller.Prelude.{
  String, ◌≡◌, ◌≢◌, refl, sym, ap, ◌∙◌, ◌⊎◌, inl, inr, true, Option, none, some, List, [], ◌∷◌,
  Bool-cases, arith, subst, false≢true,
}
use telemetry_controller.Api.{state_ready, Tenant}
use telemetry_controller.Cluster.{Error, ok, err, wrapping, Client}
use telemetry_controller.Components.Secrets.{Result-cases}
use telemetry_controller.Route.Status.{tenant_status_eq, tenant_status_eq_iff}
use telemetry_controller.Cluster.Succeeded.{unwrapped}
use telemetry_controller.Route.Handlers.{
  handle_log_source_namespaces, handle_owned_resources, handle_bridge_resources,
}
use telemetry_controller.Route.{
  TenantReconcileStep, Ran, done, failed_at, steps, run_steps, handle_tenant_reconcile_error,
  ready_tenant, finish, conclude, reconcile,
}

module _ {W : Type 0} (c : Client W) where
  -- The end of a reconciliation writes the tenant exactly if the status that it is to have differs
  -- from the one that was read, and reports what the write reports.
  pub finish_lem :
      (original t : Tenant) (w : W)
      → ((original.status ≡ (ready_tenant c t).status) × (finish c original t w ≡ (ok tt, w)))
        ⊎ ((original.status ≢ (ready_tenant c t).status)
            × (finish c original t w
                ≡ wrapping "failed updating tenant status" (c.update_tenant (ready_tenant c t)) w))
  unfolding finish
  finish_lem original t w = elim (Bool-cases (tenant_status_eq original.status ready.status)) [
    | inl same ↦ inl ((tenant_status_eq_iff original.status ready.status).0 same, rw same refl)
    | inr other ↦ inr (λ e. false≢true (sym other ∙ (tenant_status_eq_iff _ _).1 e), rw other refl)
  ]
    where
      ready : Tenant
      ready = ready_tenant c t

  -- The tenant as it is to be at the end: ready, without problems, and otherwise as the steps left
  -- it.
  abbrev pub settled : Tenant → Tenant
  settled t = record t {
    status = record (let status = t.status in status) {
      state = state_ready;
      problems = some [];
      problems_count = 0;
    };
  }

  -- That status was read, or it was written without an error.
  abbrev pub IsSettled : Tenant → Tenant × W → Type 0
  IsSettled original (t, w) =
      (original.status ≡ (settled t).status) ⊎ ((c.update_tenant (settled t) w).0 ≡ ok tt)

  finish-IsSettled :
      (original t : Tenant) (w : W) → (finish c original t w).0 ≡ ok tt → IsSettled original (t, w)
  unfolding ready_tenant
  finish-IsSettled original t w h = elim (finish_lem original t w) [
    | inl (same, _) ↦ inl same
    | inr (_, e) ↦
        let update = c.update_tenant (settled t) w in
        inr (
          unwrapped "failed updating tenant status" update.0 tt update.1
            (subst (λ r. r.0 ≡ ok tt) e h))
  ]

  -- The three handlers return no error, each from where the one before ended, and the status is
  -- settled after them.
  pub record Completed (t : Tenant) (w : W) : Type 0 where
    pub namespaces : (handle_log_source_namespaces c (t, w)).0 ≡ ok tt
    pub resources : (handle_owned_resources c (handle_log_source_namespaces c (t, w)).1).0 ≡ ok tt
    pub bridges :
        (handle_bridge_resources c
          (handle_owned_resources c (handle_log_source_namespaces c (t, w)).1).1).0
        ≡ ok tt
    pub written :
        IsSettled t
          (handle_bridge_resources c
            (handle_owned_resources c (handle_log_source_namespaces c (t, w)).1).1).1

  -- A step that does not end the loop.
  took :
      (step : TenantReconcileStep W) (rest : List (TenantReconcileStep W)) (st : Tenant × W)
      → (run_steps c (step ∷ rest) st).0 ≡ done
      → ((step.fn st).0 ≡ ok tt) × (run_steps c (step ∷ rest) st ≡ run_steps c rest (step.fn st).1)
  unfolding run_steps
  took step rest st h = elim (Result-cases (step.fn st).0) [
    | inl (u, e) ↦ (e, rw e refl)
    | inr (f, e) ↦ ground (arith, rw (e, run_steps) at h)
  ]

  conclude-ok :
      (original : Tenant) (r : Ran) (t : Tenant) (w : W)
      → (conclude c original (r, (t, w))).0 ≡ ok tt
      → (r ≡ done) × ((finish c original t w).0 ≡ ok tt)
  unfolding conclude handle_tenant_reconcile_error
  conclude-ok original done t w h = (refl, h)
  conclude-ok original (failed_at step e) t w h = ground arith

  steps-Completed :
      (t : Tenant) (w : W) → (conclude c t (run_steps c (steps c) (t, w))).0 ≡ ok tt → Completed t w
  unfolding steps run_steps
  steps-Completed t w h =
      let run = run_steps c (steps c) (t, w) in
      let (all, finished) = conclude-ok t run.0 run.1.0 run.1.1 h in
      let (first, e1) = took namespaces (resources ∷ bridges ∷ []) (t, w) all in
      let all1 = subst (λ r. r.0 ≡ done) e1 all in
      let (second, e2) = took resources (bridges ∷ []) st1 all1 in
      let (third, e3) = took bridges [] st2 (subst (λ r. r.0 ≡ done) e2 all1) in
      let ended = subst (λ r. (finish c t r.1.0 r.1.1).0 ≡ ok tt) (e1 ∙ e2 ∙ e3) finished in
      record {
        namespaces = first;
        resources = second;
        bridges = third;
        written = finish-IsSettled t st3.0 st3.1 ended;
      }
    where
      namespaces : TenantReconcileStep W
      namespaces = record {
        name = "handle log source namespaces";
        fn = handle_log_source_namespaces c;
      }

      resources : TenantReconcileStep W
      resources = record { name = "handle owned resources"; fn = handle_owned_resources c }

      bridges : TenantReconcileStep W
      bridges = record { name = "handle bridge resources"; fn = handle_bridge_resources c }

      st1 : Tenant × W
      st1 = (handle_log_source_namespaces c (t, w)).1

      st2 : Tenant × W
      st2 = (handle_owned_resources c st1).1

      st3 : Tenant × W
      st3 = (handle_bridge_resources c st2).1

  -- A reconciliation reports success only if there is no such tenant, or each of the three handlers
  -- returned without an error, and the status that the tenant is to have then, ready and without
  -- problems, is the one that was read or was written without an error.
  pub reconcile-ok :
      (name : String) (w : W)
      → (reconcile c name w).0 ≡ ok tt
      → ((e : Error) × ((c.get_tenant name w).0 ≡ err e) × (c.is_not_found e ≡ true))
        ⊎ ((t : Tenant) × ((c.get_tenant name w).0 ≡ ok t) × Completed t (c.get_tenant name w).1)
  unfolding reconcile
  reconcile-ok name w h = elim (Result-cases (c.get_tenant name w).0) [
    | inl (t, e) ↦ inr (t, e, steps-Completed t (c.get_tenant name w).1 (rw (e, reconcile) at h))
    | inr (f, e) ↦ elim (Bool-cases (c.is_not_found f)) [
      | inl missing ↦ inl (f, e, missing)
      | inr other ↦ ground (arith, rw (e, other, reconcile) at h)
    ]
  ]

  -- The end of a reconciliation of a tenant that was read without a list of problems writes the
  -- status, also if nothing in it changed.
  pub finish_writes :
      (original t : Tenant) (w : W)
      → original.status.problems ≡ none
      → finish c original t w
        ≡ wrapping "failed updating tenant status" (c.update_tenant (ready_tenant c t)) w
  unfolding ready_tenant
  finish_writes original t w none_listed = elim (finish_lem original t w) [
    | inl (same, _) ↦ absurd (none≢some (sym none_listed ∙ ap (λ s. s.problems) same ∙ listed))
    | inr (_, e) ↦ e
  ]
    where
      none≢some : ◌≢◌ {A = Option (List String)} none (some [])
      none≢some e = ground arith

      listed : (ready_tenant c t).status.problems ≡ some []
      listed = refl
