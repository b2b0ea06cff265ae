-- ===== src/TenantResources/Ownership.antt =====
-- tenant_resource_manager.go: which resources a tenant owns, takes over and gives up.
pub mod Split
pub mod Claims
use telemetry_controller.Prelude.{
  String, Bool, true, not, ◌&&◌, Option, none, some, List, [], ◌∷◌, ◌++◌, map, contains, string_eq,
  ◌==◌, ◌⧺◌, keep, if◌then◌else◌,
}
use telemetry_controller.Api.{state_failed, string, name_instance, Tenant}
use telemetry_controller.Cluster.{
  message, Result, ok, err, Exec, pure, fail, wrapping, ◌>>=◌, Client, Namespace, ignore_not_found,
}
use telemetry_controller.TenantResources.{
  Resource, subscription, output, Kind, subscription_kind, output_kind, other_kind, tenant_of,
  set_tenant, set_state, set_problems, name_of, get_namespaces_for_selector_slice, update,
}

-- The resources with their tenant set already, and those that are still to be taken over.
pub record Owned : Type 0 where
  pub owned_list : List Resource
  pub update_list : List Resource

is_foreign : String → Resource → Bool
is_foreign tenant res = not (tenant_of res == "") && not (tenant_of res == tenant)

conflict_text : Resource → String
conflict_text res =
    "resource " ⧺ string (name_of res) ⧺ " is already owned by tenant " ⧺ tenant_of res

-- What is written of a resource that another tenant owns.
pub conflicting : Resource → Resource
conflicting res = set_state state_failed (set_problems (conflict_text res ∷ []) res)

sort_in : Resource → Owned → Owned
sort_in res o =
    if tenant_of res == ""
    then record o { update_list = res ∷ o.update_list }
    else record o { owned_list = res ∷ o.owned_list }

module _ {W : Type 0} (c : Client W) where
  list_in : Kind → String → Exec W (List Resource)
  list_in subscription_kind ns = do
    found ← c.list_subscriptions_in ns
    pure (map subscription found)
  list_in output_kind ns = do found ← c.list_outputs_in ns; pure (map output found)
  list_in other_kind ns = fail (message "unsupported resource type")

  list_of : Kind → String → Exec W (List Resource)
  list_of subscription_kind tenant = do
    found ← c.list_subscriptions_of tenant
    pure (map subscription found)
  list_of output_kind tenant = do found ← c.list_outputs_of tenant; pure (map output found)
  list_of other_kind tenant = fail (message "unsupported resource type")

  -- The loop over the namespaces; one that is not found adds nothing.
  collect_resources : Kind → List Namespace → Exec W (List Resource)
  collect_resources kind [] = pure []
  collect_resources kind (ns ∷ rest) = do
    here ←
        wrapping ("failed to list resources in namespace " ⧺ ns.name)
          (ignore_not_found c (list_in kind ns.name))
    more ← collect_resources kind rest
    pure (here ++ more)

  -- The loop over the resources. A conflict is written, and a failure to write is only logged.
  pub classify : String → List Resource → W → Owned × W
  classify tenant [] w = (record { owned_list = []; update_list = [] }, w)
  classify tenant (res ∷ rest) w =
      let foreign = is_foreign tenant res in
      let w' = if foreign then (update c (conflicting res) w).1 else w in
      let (o, w'') = classify tenant rest w' in (if foreign then o else sort_in res o, w'')

  classifying : String → List Resource → Exec W Owned
  classifying tenant rs w = let (o, w') = classify tenant rs w in (ok o, w')

  -- The type switch, and what follows it.
  gather : Kind → Tenant → List Namespace → Exec W Owned
  gather other_kind t namespaces = fail (message "unsupported resource type")
  gather kind t namespaces = do all ← collect_resources kind namespaces; classifying t.name all

  -- GetResourceOwnedByTenant; `none` is the nil interface.
  unfoldable pub get_resource_owned_by_tenant : Option Kind → Tenant → Exec W Owned
  unfolding gather classifying classify collect_resources list_in is_foreign sort_in conflicting
      conflict_text
  get_resource_owned_by_tenant none t = fail (message "resource cannot be nil")
  get_resource_owned_by_tenant (some kind) t = do
    namespaces ←
        wrapping "failed to get namespaces"
          (get_namespaces_for_selector_slice c t.spec.subscription_namespace_selectors)
    gather kind t namespaces

  -- UpdateResourcesForTenant: the resources whose update went through.
  unfoldable pub update_resources_for_tenant : String → List Resource → W → List Resource × W
  update_resources_for_tenant tenant [] w = ([], w)
  update_resources_for_tenant tenant (res ∷ rest) w =
      let res' = set_tenant tenant res in
      let (r, w') = update c res' w in
      let (done, w'') = update_resources_for_tenant tenant rest w' in
      (elim r [ ok _ ↦ res' ∷ done | err _ ↦ done ], w'')

  not_selected : List Resource → Resource → Bool
  not_selected selected res = not (contains (map name_of selected) (name_of res))

  -- GetResourcesReferencingTenantButNotSelected
  unfoldable pub get_resources_referencing_tenant_but_not_selected :
      Tenant → Kind → List Resource → Exec W (List Resource)
  unfolding list_of not_selected
  get_resources_referencing_tenant_but_not_selected t kind selected = do
    found ←
        wrapping "failed to list resources that need to be detached from tenant"
          (ignore_not_found c (list_of kind t.name))
    pure (keep (not_selected selected) found)

  -- DisownResources; failures are only logged.
  unfoldable pub disown_resources : List Resource → W → W
  disown_resources [] w = w
  disown_resources (res ∷ rest) w =
      let (r, w') = update c (set_tenant "" res) w in disown_resources rest w'
