-- ===== src/Bridges.antt =====
-- pkg/resources/manager/bridge_manager.go: the bridges of a tenant and their ends.
pub mod Connections
use telemetry_controller.Prelude.{
  String, Bool, true, false, not, ◌||◌, List, [], ◌∷◌, ◌++◌, map, string_eq, ◌==◌, ◌⧺◌, keep,
  if◌then◌else◌,
}
use telemetry_controller.Api.{Bridge, Tenant}
use telemetry_controller.Cluster.{
  message, Exec, pure, fail, wrapping, ◌>>=◌, ◌>>◌, Client, ignore_not_found,
}

is_connected : String → Bridge → Bool
is_connected tenant b = b.spec.source_tenant == tenant || b.spec.target_tenant == tenant

-- GetBridgeNamesFromBridges
abbrev pub get_bridge_names_from_bridges : List Bridge → List String
get_bridge_names_from_bridges bs = map (λ b. b.name) bs

module _ {W : Type 0} (c : Client W) where
  -- GetBridgesForTenant, with getBridges at its two field selectors.
  unfoldable pub get_bridges_for_tenant : String → Exec W (List Bridge)
  unfolding is_connected
  get_bridges_for_tenant tenant = do
    sources ← ignore_not_found c (c.list_bridges_from tenant)
    targets ← ignore_not_found c (c.list_bridges_to tenant)
    pure (keep (is_connected tenant) (sources ++ targets))

  -- A reference that no tenant has is dangling.
  require : Bridge → String → List Tenant → Exec W (Unit {0})
  require b reference [] =
      fail (message ("bridge " ⧺ b.name ⧺ " has a dangling tenant reference " ⧺ reference))
  require b reference (t ∷ ts) = pure tt

  -- One round of ValidateBridgeConnection. The tenant itself is not looked up.
  check_reference : String → Bridge → String → Exec W (Unit {0})
  check_reference tenant b reference = if reference == tenant then pure tt else do
    found ←
        wrapping ("failed to get tenant " ⧺ reference ⧺ " for bridge " ⧺ b.name)
          (ignore_not_found c (c.list_tenants_named reference))
    require b reference found

  unfoldable pub validate_bridge_connection : String → Bridge → Exec W (Unit {0})
  unfolding check_reference require
  validate_bridge_connection tenant b = do
    check_reference tenant b b.spec.source_tenant
    check_reference tenant b b.spec.target_tenant
