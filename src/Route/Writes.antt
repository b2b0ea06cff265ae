-- ===== src/Route/Writes.antt =====
-- Which writes a reconciliation of a tenant makes, whatever happens.
use telemetry_controller.Prelude.{
  String, ◌≡◌, refl, ◌⊎◌, inl, inr, some, List, [], ◌∷◌, Bool-cases, All, arith, subst,
}
use telemetry_controller.Api.{state_ready, state_failed, Tenant}
use telemetry_controller.Problem.{add}
use telemetry_controller.Cluster.{Error, Client}
use telemetry_controller.Cluster.Writes.{Keeps, Allows, Post, Keeps-wrapping}
use telemetry_controller.Components.Secrets.{Result-cases}
use telemetry_controller.TenantResources.Ownership.Claims.{MayOutput, MaySubscription}
use telemetry_controller.Route.Status.{tenant_status_eq}
use telemetry_controller.Route.Handlers.Writes.{MayBridge}
use telemetry_controller.Route.Handlers.Kinds.{
  Held, handle_log_source_namespaces_keeps, handle_owned_resources_keeps,
  handle_bridge_resources_keeps,
}
use telemetry_controller.Route.{
  TenantReconcileStep, Ran, done, failed_at, steps, run_steps, failed_tenant, ready_tenant,
  handle_tenant_reconcile_error, finish, conclude, reconcile,
}

-- A status that is written of the tenant says that all is well and lists no problem, or that it
-- failed.
abbrev pub MayTenant : String → Tenant → Type 0
MayTenant tenant t =
    (t.name ≡ tenant)
    × (((t.status.state ≡ state_ready)
          × (t.status.problems ≡ some [])
          × (t.status.problems_count ≡ 0))
        ⊎ (t.status.state ≡ state_failed))

-- What a client reads by name has that name.
abbrev pub IsNamed : {W : Type 0} → Client W → Type 0
IsNamed {W = W} c = (n : String) (w : W) → Post (λ t. t.name ≡ n) (c.get_tenant n w).0

module _ {W : Type 0} (c : Client W) {P : W → Type 0} (tenant : String)
    (allows : Allows c P
      (MayOutput tenant)
      (MaySubscription tenant)
      MayBridge
      (MayTenant tenant)) where
  run_steps_keeps :
      (ss : List (TenantReconcileStep W)) (st : Tenant × W)
      → All (λ s. Keeps (Held c {P = P} tenant allows) s.fn) ss
      → Held c {P = P} tenant allows st
      → Held c {P = P} tenant allows (run_steps c ss st).1
  unfolding run_steps
  run_steps_keeps [] st ks h = h
  run_steps_keeps (s ∷ ss) st ks h = elim (Result-cases (s.fn st).0) [
    | inl (_, e) ↦ rw (e, run_steps) (run_steps_keeps ss (s.fn st).1 ks.1 (ks.0.at st h))
    | inr (_, f) ↦ rw (f, run_steps) (ks.0.at st h)
  ]

  steps_keep : All (λ s. Keeps (Held c {P = P} tenant allows) s.fn) (steps c)
  unfolding steps
  steps_keep = (
    handle_log_source_namespaces_keeps c tenant allows,
    (
      handle_owned_resources_keeps c tenant allows,
      (handle_bridge_resources_keeps c tenant allows, tt),
    ),
  )

  failed_tenant_may :
      (t : Tenant) (step : String) (e : Error)
      → t.name ≡ tenant
      → MayTenant tenant (failed_tenant c t step e)
  unfolding failed_tenant add
  failed_tenant_may t step e same = (ground arith, inr (ground arith))

  ready_tenant_may : (t : Tenant) → t.name ≡ tenant → MayTenant tenant (ready_tenant c t)
  unfolding ready_tenant
  ready_tenant_may t same = (same, inl (refl, refl, refl))

  finish_keeps : (original t : Tenant) → t.name ≡ tenant → Keeps P (finish c original t)
  unfolding finish
  finish_keeps original t same = record {
    at = λ w h.
        let ready : Tenant = ready_tenant c t in
        elim (Bool-cases (tenant_status_eq original.status ready.status)) [
          | inl equal ↦ rw equal h
          | inr other ↦ rw other (
              (Keeps-wrapping _ (c.update_tenant ready)
                  (allows.update_tenant ready (ready_tenant_may t same))).at
                w h)
        ];
  }

  conclude_keeps :
      (original : Tenant) (ran : Ran) (t : Tenant) (w : W)
      → t.name ≡ tenant
      → P w
      → P (conclude c original (ran, (t, w))).1
  unfolding conclude handle_tenant_reconcile_error
  conclude_keeps original done t w same h = (finish_keeps original t same).at w h
  conclude_keeps original (failed_at step e) t w same h =
      (allows.update_tenant (failed_tenant c t step e) (failed_tenant_may t step e same)).at w h

  -- Whatever the cluster holds and other actors do, and whether a reconciliation succeeds or fails
  -- at any point, the writes of a reconciliation of a tenant are these: outputs and subscriptions
  -- that carry the tenant's name, or no tenant, or are marked as failed; bridges that are ready
  -- without problems, or failed; and the tenant of that name, ready without problems, or failed. As
  -- said by: every property of the cluster that the reads and those writes of a client keep is
  -- kept, if the client returns the tenant of the name that it is asked for.
  pub reconcile_keeps : IsNamed c → Keeps P (reconcile c tenant)
  unfolding reconcile
  reconcile_keeps named = record {
    at = λ w h. elim (Result-cases (c.get_tenant tenant w).0) [
      | inl (t, e) ↦
          let same : t.name ≡ tenant = subst (Post (λ u. u.name ≡ tenant)) e (named tenant w) in
          let kept =
            run_steps_keeps (steps c) (t, (c.get_tenant tenant w).1) steps_keep
              (same, (allows.get_tenant tenant).at w h) in
          rw (e, reconcile) (conclude_keeps t _ _ _ kept.0 kept.1)
      | inr (e, f) ↦ elim (Bool-cases (c.is_not_found e)) [
        | inl missing ↦ rw (f, reconcile, missing) ((allows.get_tenant tenant).at w h)
        | inr other ↦ rw (f, reconcile, other) ((allows.get_tenant tenant).at w h)
      ]
    ];
  }
