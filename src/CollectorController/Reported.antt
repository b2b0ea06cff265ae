-- ===== src/CollectorController/Reported.antt =====
-- What a reconciliation of a collector reports, and when it comes back.
use telemetry_controller.Prelude.{
  ℕ, ◌≤◌, String, ◌≡◌, refl, sym, ap, ◌∙◌, ◌⊎◌, inl, inr, true, false, Option, none, some, List, [],
  Bool-cases, arith,
}
use telemetry_controller.Components.Secrets.{Result-cases}
use telemetry_controller.Cluster.{Error, Result, ok, err}
use telemetry_controller.Collector.Input.{errors_is, is_tenant_failed, is_no_resources}
use telemetry_controller.CollectorController.Resource.{
  CollectorResource, CollectorStatus, set_defaults, set_collector_problems, collector_status_eq,
  collector_status_eq_iff,
}
use telemetry_controller.CollectorController.Objects.{Operator}
use telemetry_controller.CollectorController.Created.{IsCreated, creation-IsCreated}
use telemetry_controller.Api.{state_ready}
use telemetry_controller.CollectorController.Creation.{handle_collector_creation}
use telemetry_controller.CollectorController.{
  done, requeue_after, reported, ready_status, handle_collector_reconcile_error, finish, conclude,
  reconcile,
}

module _ {W : Type 0} (o : Operator W) where
  -- What the creation returns for a collector that was read.
  abbrev pub creation : CollectorResource → W → Option (Result (List String)) × W
  creation r w = handle_collector_creation o (set_defaults r.name r.spec) w

  -- The status that the collector is to have, ready and without problems, was read, or it was
  -- written without an error.
  abbrev pub IsReported : String → CollectorStatus → List String → Type 0
  IsReported name s names =
      let ready : CollectorStatus = record {
        tenants = some names;
        state = state_ready;
        problems = some [];
        problems_count = 0;
      } in
      (s ≡ ready) ⊎ ((v : W) × ((o.update_collector name ready v).0 ≡ ok tt))

  -- The end of a reconciliation that has nothing left to do.
  abbrev pub Settled : String → CollectorResource → W → Type 0
  Settled name r w =
      ((names : List String) × IsCreated o (set_defaults r.name r.spec) w names
        × IsReported name r.status names)
      ⊎ ((e : Error) × ((creation r w).0 ≡ some (err e))
          × (o.client.is_conflict e ≡ false)
          × (errors_is is_tenant_failed e ≡ false)
          × (errors_is is_no_resources e ≡ true))

  finish-IsReported :
      (name : String) (s : CollectorStatus) (names : List String) (w : W)
      → (finish o name s names w).0 ≡ done
      → IsReported name s names
  unfolding finish ready_status set_collector_problems reported
  finish-IsReported name s names w h =
      elim (Bool-cases (collector_status_eq s (ready_status o names s))) [
        | inl same ↦ inl ((collector_status_eq_iff s (ready_status o names s)).0 same)
        | inr other ↦ inr (
          w,
          passed (o.update_collector name (ready_status o names s) w).0 (rw (other, finish) at h),
        )
      ]
    where
      passed : (r : Result (Unit {0})) → reported o done (λ e. e) r ≡ done → r ≡ ok tt
      passed (ok u) q = refl
      passed (err e) q = ground (arith, q)

  error-done :
      (name : String) (s : CollectorStatus) (e : Error) (w : W)
      → (handle_collector_reconcile_error o name s e w).0 ≡ done
      → (o.client.is_conflict e ≡ false)
        × (errors_is is_tenant_failed e ≡ false)
        × (errors_is is_no_resources e ≡ true)
  unfolding handle_collector_reconcile_error reported
  error-done name s e w h = ground (arith, h)

  conclude-done :
      (name : String) (r : CollectorResource) (w : W) (made : Option (Result (List String)) × W)
      → creation r w ≡ made
      → (conclude o name r.status made).0 ≡ done
      → Settled name r w
  unfolding conclude
  conclude-done name r w (none, v) e h = ground (arith, h)
  conclude-done name r w (some (err d), v) e h =
      let (a, b, c) = error-done name r.status d v h in inr (d, ap (λ x. x.0) e, a, b, c)
  conclude-done name r w (some (ok names), v) e h = inl (
    names,
    creation-IsCreated o (set_defaults r.name r.spec) w names (ap (λ x. x.0) e),
    finish-IsReported name r.status names v h,
  )

  -- A reconciliation reports that nothing is left to do only if the collector is gone; or its input
  -- was built, passed both validations, and its roles, account, secret and OpenTelemetryCollector
  -- were all reconciled without an error, and its status, ready without problems and with the names
  -- of the tenants, is the one that was read or was written without an error; or the creation ended
  -- with ErrNoResources.
  pub reconcile-done :
      (name : String) (w : W)
      → (reconcile o name w).0 ≡ done
      → ((e : Error) × ((o.get_collector name w).0 ≡ err e) × (o.client.is_not_found e ≡ true))
        ⊎ ((r : CollectorResource) × ((o.get_collector name w).0 ≡ ok r)
            × Settled name r (o.get_collector name w).1)
  unfolding reconcile
  reconcile-done name w h = elim (Result-cases (o.get_collector name w).0) [
    | inl (r, e) ↦
        inr (r, e, conclude-done name r (o.get_collector name w).1 _ refl (rw (e, reconcile) at h))
    | inr (e, f) ↦ elim (Bool-cases (o.client.is_not_found e)) [
      | inl missing ↦ inl (e, f, missing)
      | inr other ↦ ground (arith, rw (f, other, reconcile) at h)
    ]
  ]

  abbrev pub IsDelayed : CollectorResource → W → ℕ → W → Type 0
  IsDelayed r w n after =
      (n ≤ 20)
      × (after ≡ (creation r w).1)
      × ((e : Error) × ((creation r w).0 ≡ some (err e))
          × ((o.client.is_conflict e ≡ true) ⊎ (errors_is is_tenant_failed e ≡ true)))

  error-requeue_after :
      (name : String) (s : CollectorStatus) (e : Error) (w : W) (n : ℕ)
      → (handle_collector_reconcile_error o name s e w).0 ≡ requeue_after n
      → (n ≤ 20)
        × ((handle_collector_reconcile_error o name s e w).1 ≡ w)
        × ((o.client.is_conflict e ≡ true) ⊎ (errors_is is_tenant_failed e ≡ true))
  unfolding handle_collector_reconcile_error reported
  error-requeue_after name s e w n h = ground (arith, h)

  finish_requeues_never :
      (name : String) (s : CollectorStatus) (names : List String) (w : W) (n : ℕ)
      → (finish o name s names w).0 ≡ requeue_after n
      → ⊥
  unfolding finish reported
  finish_requeues_never name s names w n h = ground (arith, h)

  conclude-IsDelayed :
      (name : String) (r : CollectorResource) (w : W) (n : ℕ)
      (made : Option (Result (List String)) × W)
      → creation r w ≡ made
      → (conclude o name r.status made).0 ≡ requeue_after n
      → IsDelayed r w n (conclude o name r.status made).1
  unfolding conclude
  conclude-IsDelayed name r w n (none, v) same h = ground (arith, h)
  conclude-IsDelayed name r w n (some (err e), v) same h =
      let (bound, kept, why) = error-requeue_after name r.status e v n h in
      (bound, kept ∙ sym (ap (λ x. x.1) same), (e, ap (λ x. x.0) same, why))
  conclude-IsDelayed name r w n (some (ok names), v) same h =
      absurd (finish_requeues_never name r.status names v n h)

  -- A reconciliation asks to be called again after at most twenty seconds, and only because the
  -- creation failed by a conflict or by a failed tenant; it then leaves everything as the creation
  -- did, the status of the collector included.
  pub reconcile-requeue_after :
      (name : String) (w : W) (n : ℕ)
      → (reconcile o name w).0 ≡ requeue_after n
      → (r : CollectorResource) × ((o.get_collector name w).0 ≡ ok r)
        × IsDelayed r (o.get_collector name w).1 n (reconcile o name w).1
  unfolding reconcile
  reconcile-requeue_after name w n h = elim (Result-cases (o.get_collector name w).0) [
    | inl (r, e) ↦ (
      r,
      e,
      rw (e, reconcile)
          (conclude-IsDelayed name r (o.get_collector name w).1 n _ refl (rw (e, reconcile) at h)),
    )
    | inr (e, f) ↦ elim (Bool-cases (o.client.is_not_found e)) [
      | inl missing ↦ ground (arith, rw (f, missing, reconcile) at h)
      | inr other ↦ ground (arith, rw (f, other, reconcile) at h)
    ]
  ]
