-- ===== src/TenantResources.antt =====
-- pkg/resources/manager/tenant_resource_manager.go: the subscriptions and outputs of a tenant.
-- pkg/sdk/model/types.go: what the two kinds have in common.
pub mod Namespaces
pub mod Ownership
pub mod Validation
mod Tests
use telemetry_controller.Prelude.{
  ℕ, String, ◌≡◌, Bool, true, false, not, ◌&&◌, Option, none, some, List, [], ◌∷◌, ◌++◌, map,
  contains, lookup, insert, string_eq, ◌==◌, ◌⧺◌, sort_by, keep, if◌then◌else◌,
}
use telemetry_controller.Api.{
  NamespacedName, string, name_instance, State, state_ready, state_failed, LabelSelector, Tenant,
  Output, output_name, set_output_tenant, set_output_state, set_output_problems,
  clear_output_problems, Subscription, subscription_name, set_subscription_tenant,
  set_subscription_state, set_subscription_problems,
}
use telemetry_controller.Problem.{add_output_problem}
use telemetry_controller.Cluster.{
  Error, message, wrap, Result, ok, err, Exec, pure, fail, wrapping, ◌>>=◌, Client, Namespace,
  ignore_not_found,
}
use telemetry_controller.Components.{query_output_secret}

-- The implementations of model.ResourceOwnedByTenant.
pub data Resource : Type 0 where
  subscription : Subscription → Resource
  output : Output → Resource

-- The type switch on a resource: the two kinds, and any other implementation.
pub data Kind : Type 0 where
  subscription_kind output_kind other_kind : Kind

abbrev pub tenant_of : Resource → String
tenant_of (subscription s) = s.status.tenant
tenant_of (output o) = o.status.tenant

abbrev pub set_tenant : String → Resource → Resource
set_tenant t (subscription s) = subscription (set_subscription_tenant t s)
set_tenant t (output o) = output (set_output_tenant t o)

abbrev pub state_of : Resource → State
state_of (subscription s) = s.status.state
state_of (output o) = o.status.state

abbrev pub set_state : State → Resource → Resource
set_state st (subscription s) = subscription (set_subscription_state st s)
set_state st (output o) = output (set_output_state st o)

abbrev pub set_problems : List String → Resource → Resource
set_problems ps (subscription s) = subscription (set_subscription_problems (some ps) s)
set_problems ps (output o) = output (set_output_problems (some ps) o)

abbrev pub name_of : Resource → NamespacedName
name_of (subscription s) = subscription_name s
name_of (output o) = output_name o

-- normalizeNamespaceSlice. `seen` are the keys of allKeys.
unique_from : List String → List Namespace → List Namespace
unique_from seen [] = []
unique_from seen (item ∷ rest) =
    let fresh = not (contains seen item.name) in
    let tail = unique_from (if fresh then item.name ∷ seen else seen) rest in
    if fresh then item ∷ tail else tail

unfoldable pub normalize_namespace_slice : List Namespace → List Namespace
unfolding unique_from sort_by contains
normalize_namespace_slice list = sort_by (λ n. n.name) (unique_from [] list)

-- GetResourceNamesFromResource
abbrev pub get_resource_names_from_resource : List Resource → List NamespacedName
get_resource_names_from_resource rs = map name_of rs

module _ {W : Type 0} (c : Client W) where
  -- The loop of getNamespacesForSelectorSlice.
  collect_namespaces : List Namespace → List LabelSelector → Exec W (List Namespace)
  collect_namespaces found [] = pure found
  collect_namespaces found (ls ∷ rest) = elim (c.as_selector ls) [
    | err e ↦ fail e
    | ok selector ↦ do
      more ← ignore_not_found c (c.list_namespaces selector)
      collect_namespaces (found ++ more) rest
  ]

  unfoldable pub get_namespaces_for_selector_slice : List LabelSelector → Exec W (List Namespace)
  unfolding collect_namespaces
  get_namespaces_for_selector_slice selectors = do
    found ← collect_namespaces [] selectors
    pure (normalize_namespace_slice found)

  unfoldable pub get_logsource_namespace_names_for_tenant : Tenant → Exec W (List String)
  unfolding get_namespaces_for_selector_slice
  get_logsource_namespace_names_for_tenant t = do
    found ← get_namespaces_for_selector_slice t.spec.log_source_namespace_selectors
    pure (map (λ n. n.name) found)

  -- Status().Update of a resource.
  unfoldable pub update : Resource → Exec W (Unit {0})
  update (subscription s) = c.update_subscription s
  update (output o) = c.update_output o
