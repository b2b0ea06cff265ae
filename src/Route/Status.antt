-- ===== src/Route/Status.antt =====
-- reflect.DeepEqual of two statuses, which decides whether a status is written.
use telemetry_controller.Prelude.{
  ◌≡◌, ◌↔◌, Bool, true, ◌&&◌, arith, eq_iff, string_eq, list_instance, option_instance,
  option_beq_iff, ◌==◌, nat_eq,
}
use telemetry_controller.Api.{name_instance, TenantStatus, BridgeStatus}

unfoldable pub tenant_status_eq : TenantStatus → TenantStatus → Bool
tenant_status_eq a b =
    a.subscriptions == b.subscriptions
    && a.log_source_namespaces == b.log_source_namespaces
    && a.connected_bridges == b.connected_bridges
    && a.state == b.state
    && a.problems == b.problems
    && a.problems_count == b.problems_count

unfoldable pub bridge_status_eq : BridgeStatus → BridgeStatus → Bool
bridge_status_eq a b =
    a.state == b.state && a.problems == b.problems && a.problems_count == b.problems_count

-- The comparison finds two statuses equal exactly if they are, nil slices told from empty ones.
pub tenant_status_eq_iff : (a b : TenantStatus) → (tenant_status_eq a b ≡ true) ↔ (a ≡ b)
unfolding tenant_status_eq
tenant_status_eq_iff a b = ground (
  arith,
  option_beq_iff a.subscriptions b.subscriptions,
  option_beq_iff a.log_source_namespaces b.log_source_namespaces,
  option_beq_iff a.connected_bridges b.connected_bridges,
  eq_iff a.state b.state,
  option_beq_iff a.problems b.problems,
)
