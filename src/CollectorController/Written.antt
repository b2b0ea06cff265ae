-- ===== src/CollectorController/Written.antt =====
-- What a reconciliation of a collector writes, from its start to its end.
use telemetry_controller.Prelude.{
  String, refl, ap, inl, inr, Bool, true, false, Option, none, some, List, Bool-cases, Option-cases,
  ◌⧺◌, if◌then◌else◌,
}
use telemetry_controller.Components.Secrets.{Result-cases}
use telemetry_controller.Cluster.{Error, Result, ok, err, wrapping}
use telemetry_controller.Cluster.Writes.{Post, Keeps-wrapping}
use telemetry_controller.Cluster.Succeeded.{unwrapped}
use telemetry_controller.ConfGen.{OtelColConfigInput}
use telemetry_controller.ConfGen.Assembly.{assemble_config}
use telemetry_controller.Collector.{Collector, build_config_input_for_collector}
use telemetry_controller.Collector.Reads.{build_config_input_keeps}
use telemetry_controller.Collector.Input.{errors_is, is_tenant_failed, is_no_resources}
use telemetry_controller.CollectorController.Resource.{
  CollectorStatus, collector_status_eq, set_defaults, set_collector_problems,
}
use telemetry_controller.CollectorController.Objects.{Operator}
use telemetry_controller.CollectorController.Creation.{
  checked, configured, handle_collector_creation,
}
use telemetry_controller.CollectorController.{
  Outcome, done, requeue_after, failed_status, ready_status, handle_collector_reconcile_error,
  finish, conclude, reconcile,
}
use telemetry_controller.CollectorController.Created.{checked-ok}
use telemetry_controller.CollectorController.Accounts.{AreNames, apply-AreNames}
use telemetry_controller.CollectorController.Writes.{
  MayStatus, IsReadAs, IsValidFor, Permits, apply_keeps,
}

module _ {W : Type 0} (o : Operator W) (name : String) {P : W → Type 0}
    (permits : Permits o name P) where
  module _ (k : Collector) (known : IsReadAs o name k) where
    -- What a creation leaves: `P`, and the names of tenants if it succeeds.
    abbrev Left : Option (Result (List String)) × W → Type 0
    Left (none, w) = P w
    Left (some (err e), w) = P w
    Left (some (ok names), w) = P w × AreNames o k names

    left : (r : Result (List String)) (w : W) → P w → Post (AreNames o k) r → Left (some r, w)
    left (ok names) w h named = (h, named)
    left (err e) w h named = h

    configured-Left :
        (input : OtelColConfigInput) (w : W)
        → IsValidFor o k input
        → P w
        → Left (configured o k input w)
    unfolding configured
    configured-Left input w good h =
        let config = (assemble_config o.opaque o.platform input).0 in
        elim (Option-cases (assemble_config o.opaque o.platform input).1) [
          | inl e ↦ rw (e, configured) h
          | inr (args, e) ↦
              rw (e, configured)
                (left _ _
                  ((apply_keeps o permits k known input config args good (λ j. (config, e j))).at w
                    h)
                  ((apply-AreNames o k input config args).from w))
        ]

    creation-Left : (w : W) → P w → Left (handle_collector_creation o k w)
    unfolding handle_collector_creation
    creation-Left w h =
        let text = "failed to build config input for collector " ⧺ k.name in
        let build = build_config_input_for_collector o.client k in
        let kept =
          (Keeps-wrapping text build (build_config_input_keeps o.client permits.client k)).at w h in
        elim (Result-cases (wrapping text build w).0) [
          | inr (e, f) ↦ rw (f, handle_collector_creation) kept
          | inl (input, f) ↦ elim (Result-cases (checked o k input)) [
            | inr (e, g) ↦ rw (f, g, handle_collector_creation) kept
            | inl (_, g) ↦
                rw (f, g, handle_collector_creation)
                  (configured-Left input _
                    (w, unwrapped text (build w).0 input (build w).1 f, checked-ok o k input g)
                    kept)
          ]
        ]

  failed_status_may : (e : Error) (s : CollectorStatus) → MayStatus (failed_status o e s)
  unfolding failed_status
  failed_status_may e s = inr refl

  ready_status_may :
      (k : Collector) (names : List String) (s : CollectorStatus)
      → AreNames o k names
      → MayStatus (ready_status o names s)
  unfolding ready_status set_collector_problems
  ready_status_may k names s (ts, e) = inl (refl, refl, refl, (ts, ap some e))

  error_keeps :
      (s : CollectorStatus) (e : Error) (w : W)
      → P w
      → P (handle_collector_reconcile_error o name s e w).1
  unfolding handle_collector_reconcile_error
  error_keeps s e w h =
      branch _ (o.client.is_conflict e) (errors_is is_tenant_failed e) (errors_is is_no_resources e)
        ((permits.update_collector (failed_status o e s) (failed_status_may e s)).at w h)
    where
      branch :
          (x : Outcome × W) (conflict tenant none' : Bool)
          → P x.1
          → P
              (if conflict
                then (requeue_after 1, w)
                else if tenant
                then (requeue_after 20, w)
                else if none'
                then (done, w)
                else x).1
      branch x true tenant none' k = h
      branch x false true none' k = h
      branch x false false true k = h
      branch x false false false k = k

  finish_keeps :
      (k : Collector) (s : CollectorStatus) (names : List String) (w : W)
      → AreNames o k names
      → P w
      → P (finish o name s names w).1
  unfolding finish
  finish_keeps k s names w named h =
      elim (Bool-cases (collector_status_eq s (ready_status o names s))) [
        | inl same ↦ rw (same, finish) h
        | inr other ↦
            rw (other, finish)
              ((permits.update_collector (ready_status o names s)
                  (ready_status_may k names s named)).at
                w h)
      ]

  conclude_keeps :
      (k : Collector) (known : IsReadAs o name k) (s : CollectorStatus)
      (r : Option (Result (List String)) × W)
      → Left k known r
      → P (conclude o name s r).1
  unfolding conclude
  conclude_keeps k known s (none, w) h = h
  conclude_keeps k known s (some (err e), w) h = error_keeps s e w h
  conclude_keeps k known s (some (ok names), w) h = finish_keeps k s names w h.1 h.0

  -- Whatever the cluster holds and other actors do, and whether a reconciliation of a collector
  -- succeeds, fails at any point or panics, it writes nothing but these: for a collector that is
  -- read under its name, the roles, the account, the secret with the credentials of the outputs of
  -- an input that is built for it and valid, and an OpenTelemetryCollector whose configuration,
  -- tenants and outputs are all those of such an input, whose configuration has passed the
  -- validation, and which runs under that account; and the status of the collector of that name,
  -- ready without problems and with the names of tenants in order, or failed. As said by: every
  -- property of the cluster that the reads of a client and those writes keep is kept.
  pub reconcile_writes : (w : W) → P w → P (reconcile o name w).1
  unfolding reconcile
  reconcile_writes w h =
      let kept = permits.get_collector.at w h in
      elim (Result-cases (o.get_collector name w).0) [
        | inl (r, e) ↦
            let k = set_defaults r.name r.spec in
            let known : IsReadAs o name k = (r, w, e, refl) in
            rw (e, reconcile)
              (conclude_keeps k known r.status _
                (creation-Left k known (o.get_collector name w).1 kept))
        | inr (e, f) ↦ elim (Bool-cases (o.client.is_not_found e)) [
          | inl missing ↦ rw (f, reconcile, missing) kept
          | inr other ↦ rw (f, reconcile, other) kept
        ]
      ]
