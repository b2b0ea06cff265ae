-- ===== src/Route/Tests.antt =====
-- Reconciliations of the sample's tenant, and the theorems at them.
use telemetry_controller.Prelude.{◌≡◌, refl, ◌⊎◌, true, List, [], ◌∷◌, All, option_beq}
use telemetry_controller.Api.{Tenant}
use telemetry_controller.Cluster.{Error, ok, err, wrapping, Client}
use telemetry_controller.Cluster.Writes.{Keeps}
use telemetry_controller.Sample.{Write, sample, acme, disk, May, sample-Allows}
use telemetry_controller.Utils.{get_concrete_type_from_list}
use telemetry_controller.TenantResources.{
  get_logsource_namespace_names_for_tenant, normalize_namespace_slice, update,
}
use telemetry_controller.TenantResources.Ownership.{
  get_resource_owned_by_tenant, get_resources_referencing_tenant_but_not_selected,
  update_resources_for_tenant,
}
use telemetry_controller.Bridges.{get_bridges_for_tenant}
use telemetry_controller.Route.Status.{tenant_status_eq}
use telemetry_controller.Route.Handlers.{
  handle_log_source_namespaces, handle_owned_resources, handle_bridge_resources,
  validate_subscription_outputs,
}
use telemetry_controller.TenantResources.Ownership.Claims.{MayOutput, MaySubscription}
use telemetry_controller.Route.Handlers.Writes.{MayBridge}
use telemetry_controller.Route.Writes.{MayTenant, reconcile_keeps}
use telemetry_controller.Route.Outcome.{Completed, reconcile-ok, finish_writes}
use telemetry_controller.Route.{reconcile, finish, ready_tenant}

abbrev Permitted : List Write → Type 0
Permitted = All (May (MayOutput "acme") (MaySubscription "acme") MayBridge (MayTenant "acme"))

reconcile_keeps_example : Keeps Permitted (reconcile sample "acme")
reconcile_keeps_example =
    reconcile_keeps sample "acme"
      (sample-Allows (MayOutput "acme") (MaySubscription "acme") MayBridge (MayTenant "acme"))
      (λ n w. refl)

-- A cluster without subscriptions and bridges.
abbrev calm : Client (List Write)
calm = record sample {
  list_outputs_in = λ n w. (ok (disk ∷ []), w);
  list_subscriptions_in = λ n w. (ok [], w);
  list_subscriptions_of = λ n w. (ok [], w);
  list_bridges_from = λ n w. (ok [], w);
}

calm_test : (reconcile calm "acme" []).0 ≡ ok tt
unfolding reconcile handle_log_source_namespaces get_logsource_namespace_names_for_tenant
    handle_owned_resources get_resource_owned_by_tenant normalize_namespace_slice
    get_resources_referencing_tenant_but_not_selected update_resources_for_tenant update
    validate_subscription_outputs get_concrete_type_from_list handle_bridge_resources
    get_bridges_for_tenant tenant_status_eq option_beq
calm_test = refl

reconcile-ok_example :
    ((e : Error) × ((calm.get_tenant "acme" []).0 ≡ err e) × (calm.is_not_found e ≡ true))
    ⊎ ((t : Tenant) × ((calm.get_tenant "acme" []).0 ≡ ok t) × Completed calm t [])
reconcile-ok_example = reconcile-ok calm "acme" [] calm_test

finish_writes_example :
    finish sample acme acme []
    ≡ wrapping "failed updating tenant status" (sample.update_tenant (ready_tenant sample acme)) []
finish_writes_example = finish_writes sample acme acme [] refl
