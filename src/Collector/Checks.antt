-- ===== src/Collector/Checks.antt =====
-- collector_manager.go: the checks of the input of a configuration. The errors of a multierror are
-- a list, which is empty where ErrorOrNil is nil; appending one to another joins the lists.
pub mod Exact
use telemetry_controller.Prelude.{
  String, Bool, true, false, not, ◌&&◌, Option, none, some, List, [], ◌∷◌, ◌++◌, contains, map,
  string_eq, ◌⧺◌, if◌then◌else◌,
}
use telemetry_controller.Api.{Subscription, Bridge, Tenant}
use telemetry_controller.Cluster.{Error, message}
use telemetry_controller.Collector.{Subscriptions}

-- One error, unless the test holds.
unfoldable pub unless : Bool → Error → List Error
unless holds e = if holds then [] else e ∷ []

-- A loop that appends the errors of each element.
unfoldable pub collect : {A : Type 0} → (A → List Error) → List A → List Error
collect check [] = []
collect check (x ∷ xs) = check x ++ collect check xs

abbrev is_set : {A : Type 0} → Option A → Bool
is_set none = false
is_set (some a) = true

abbrev is_empty : {A : Type 0} → List A → Bool
is_empty [] = true
is_empty (x ∷ xs) = false

unfoldable pub tenant_errors : Tenant → List Error
tenant_errors t =
    unless (not (is_set t.status.log_source_namespaces && t.spec.select_from_all_namespaces)) (
      message (
        "tenant " ⧺ t.name
        ⧺ " has both log source namespace selectors and select from all namespaces enabled"))

-- validateTenants
unfoldable pub validate_tenants : List Tenant → List Error
validate_tenants [] = message "no tenants provided, at least one tenant must be provided" ∷ []
validate_tenants (t ∷ ts) = collect tenant_errors (t ∷ ts)

unfoldable pub subscription_errors : Subscription → List Error
subscription_errors s =
    unless (not (is_empty (let spec = s.spec in spec.outputs)))
      (message ("subscription " ⧺ s.name ⧺ " has no outputs"))

unfoldable pub bridge_errors : List String → Bridge → List Error
bridge_errors tenants b =
    unless (contains tenants b.spec.source_tenant) (
      message (
        "bridge: " ⧺ b.name ⧺ " has a source tenant: " ⧺ b.spec.source_tenant
        ⧺ " that does not exist"))
    ++ unless (contains tenants b.spec.target_tenant) (
        message (
          "bridge: " ⧺ b.name ⧺ " has a target tenant: " ⧺ b.spec.target_tenant
          ⧺ " that does not exist"))

-- validateSubscriptionsAndBridges
unfoldable pub validate_subscriptions_and_bridges :
    List Tenant → Subscriptions → List Bridge → List Error
validate_subscriptions_and_bridges tenants subscriptions bridges =
    if is_empty subscriptions && is_empty bridges
    then message
        "no subscriptions or bridges provided, at least one subscription or bridge must be provided"
      ∷ []
    else collect (λ e. subscription_errors e.1) subscriptions
      ++ collect (bridge_errors (map (λ t. t.name) tenants)) bridges
