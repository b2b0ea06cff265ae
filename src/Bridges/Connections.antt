-- ===== src/Bridges/Connections.antt =====
-- When a bridge counts as connected, and that the checks only read.
use telemetry_controller.Prelude.{String, List, [], ◌∷◌, string_eq, ◌==◌}
use telemetry_controller.Api.{Output, Subscription, Bridge, Tenant}
use telemetry_controller.Cluster.{Client, pure}
use telemetry_controller.Cluster.Writes.{
  Keeps, Allows, Keeps-pure, Keeps-fail, Keeps-bind, Keeps-wrapping, Keeps-ignore_not_found,
  Keeps-if,
}
use telemetry_controller.Bridges.{
  check_reference, require, validate_bridge_connection, get_bridges_for_tenant,
}

module _ {W : Type 0} (c : Client W) {P : W → Type 0} {may_output : Output → Type 0}
    {may_subscription : Subscription → Type 0} {may_bridge : Bridge → Type 0}
    {may_tenant : Tenant → Type 0}
    (allows : Allows c P may_output may_subscription may_bridge may_tenant) where
  require_keeps : (b : Bridge) (r : String) (ts : List Tenant) → Keeps P (require c b r ts)
  unfolding require
  require_keeps b r [] = Keeps-fail _
  require_keeps b r (t ∷ ts) = Keeps-pure tt

  check_reference_keeps :
      (tenant : String) (b : Bridge) (r : String) → Keeps P (check_reference c tenant b r)
  unfolding check_reference
  check_reference_keeps tenant b r =
      Keeps-if (r == tenant) (pure tt) _ (λ _. Keeps-pure tt)
        (λ _.
          Keeps-bind _ _
            (Keeps-wrapping _ _ (Keeps-ignore_not_found c _ (allows.list_tenants_named r)))
            (require_keeps b r))

  pub validate_bridge_keeps :
      (tenant : String) (b : Bridge) → Keeps P (validate_bridge_connection c tenant b)
  unfolding validate_bridge_connection
  validate_bridge_keeps tenant b =
      Keeps-bind _ _ (check_reference_keeps tenant b b.spec.source_tenant)
        (λ _. check_reference_keeps tenant b b.spec.target_tenant)

  pub get_bridges_keeps : (tenant : String) → Keeps P (get_bridges_for_tenant c tenant)
  unfolding get_bridges_for_tenant
  get_bridges_keeps tenant =
      Keeps-bind _ _ (Keeps-ignore_not_found c _ (allows.list_bridges_from tenant)) (λ sources.
        Keeps-bind _ _ (Keeps-ignore_not_found c _ (allows.list_bridges_to tenant))
          (λ targets. Keeps-pure _))
