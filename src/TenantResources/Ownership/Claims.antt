-- ===== src/TenantResources/Ownership/Claims.antt =====
-- Which writes the steps that claim and release resources make: a resource is written with the
-- tenant's own name, with no tenant, or marked as failed.
use telemetry_controller.Prelude.{
  String, ◌≡◌, refl, ◌⊎◌, inl, inr, some, List, [], ◌∷◌, ◌++◌, Bool-cases,
}
use telemetry_controller.Api.{state_failed, LabelSelector, Output, Subscription, Bridge, Tenant}
use telemetry_controller.Cluster.{Client, Namespace}
use telemetry_controller.Components.Secrets.{Result-cases}
use telemetry_controller.Cluster.Writes.{
  Keeps, Allows, Keeps-pure, Keeps-fail, Keeps-bind, Keeps-wrapping, Keeps-ignore_not_found,
}
use telemetry_controller.TenantResources.{
  Resource, subscription, output, Kind, subscription_kind, output_kind, other_kind, tenant_of,
  state_of, set_tenant, update, get_namespaces_for_selector_slice,
  get_logsource_namespace_names_for_tenant, collect_namespaces,
}
use telemetry_controller.TenantResources.Ownership.{
  is_foreign, conflicting, classify, classifying, list_in, list_of, collect_resources, gather,
  get_resource_owned_by_tenant, get_resources_referencing_tenant_but_not_selected,
  update_resources_for_tenant, disown_resources,
}

abbrev pub IsClaimSafe : String → Resource → Type 0
IsClaimSafe tenant r = (tenant_of r ≡ tenant) ⊎ (tenant_of r ≡ "") ⊎ (state_of r ≡ state_failed)

abbrev pub MayOutput : String → Output → Type 0
MayOutput tenant o = IsClaimSafe tenant (output o)

abbrev pub MaySubscription : String → Subscription → Type 0
MaySubscription tenant s = IsClaimSafe tenant (subscription s)

module _ {W : Type 0} (c : Client W) {P : W → Type 0} {may_bridge : Bridge → Type 0}
    {may_tenant : Tenant → Type 0} (tenant : String)
    (allows : Allows c P (MayOutput tenant) (MaySubscription tenant) may_bridge may_tenant) where
  pub Keeps-update : (r : Resource) → IsClaimSafe tenant r → Keeps P (update c r)
  unfolding update
  Keeps-update (subscription s) h = allows.update_subscription s h
  Keeps-update (output o) h = allows.update_output o h

  conflicting-IsClaimSafe : (r : Resource) → IsClaimSafe tenant (conflicting r)
  unfolding conflicting
  conflicting-IsClaimSafe (subscription s) = inr (inr refl)
  conflicting-IsClaimSafe (output o) = inr (inr refl)

  pub classify_keeps : (rs : List Resource) (w : W) → P w → P (classify c tenant rs w).1
  unfolding classify
  classify_keeps [] w h = h
  classify_keeps (r ∷ rs) w h = elim (Bool-cases (is_foreign tenant r)) [
    | inl foreign ↦ rw foreign (
        classify_keeps rs (update c (conflicting r) w).1
          ((Keeps-update (conflicting r) (conflicting-IsClaimSafe r)).at w h))
    | inr mine ↦ rw mine (classify_keeps rs w h)
  ]

  tenant_of-set_tenant : (t : String) (r : Resource) → tenant_of (set_tenant t r) ≡ t
  tenant_of-set_tenant t (subscription s) = refl
  tenant_of-set_tenant t (output o) = refl

  pub update_resources_keeps :
      (rs : List Resource) (w : W) → P w → P (update_resources_for_tenant c tenant rs w).1
  unfolding update_resources_for_tenant
  update_resources_keeps [] w h = h
  update_resources_keeps (r ∷ rs) w h =
      update_resources_keeps rs (update c (set_tenant tenant r) w).1
        ((Keeps-update (set_tenant tenant r) (inl (tenant_of-set_tenant tenant r))).at w h)

  pub disown_keeps : (rs : List Resource) (w : W) → P w → P (disown_resources c rs w)
  unfolding disown_resources
  disown_keeps [] w h = h
  disown_keeps (r ∷ rs) w h =
      disown_keeps rs (update c (set_tenant "" r) w).1
        ((Keeps-update (set_tenant "" r) (inr (inl (tenant_of-set_tenant "" r)))).at w h)

  list_in_keeps : (kind : Kind) (ns : String) → Keeps P (list_in c kind ns)
  unfolding list_in
  list_in_keeps subscription_kind ns =
      Keeps-bind _ _ (allows.list_subscriptions_in ns) (λ a. Keeps-pure _)
  list_in_keeps output_kind ns = Keeps-bind _ _ (allows.list_outputs_in ns) (λ a. Keeps-pure _)
  list_in_keeps other_kind ns = Keeps-fail _

  list_of_keeps : (kind : Kind) (t : String) → Keeps P (list_of c kind t)
  unfolding list_of
  list_of_keeps subscription_kind t =
      Keeps-bind _ _ (allows.list_subscriptions_of t) (λ a. Keeps-pure _)
  list_of_keeps output_kind t = Keeps-bind _ _ (allows.list_outputs_of t) (λ a. Keeps-pure _)
  list_of_keeps other_kind t = Keeps-fail _

  collect_resources_keeps :
      (kind : Kind) (namespaces : List Namespace) → Keeps P (collect_resources c kind namespaces)
  unfolding collect_resources
  collect_resources_keeps kind [] = Keeps-pure []
  collect_resources_keeps kind (ns ∷ rest) =
      Keeps-bind _ _ (Keeps-wrapping _ _ (Keeps-ignore_not_found c _ (list_in_keeps kind ns.name)))
        (λ here. Keeps-bind _ _ (collect_resources_keeps kind rest) (λ more. Keeps-pure _))

  collect_namespaces_keeps :
      (found : List Namespace) (selectors : List LabelSelector)
      → Keeps P (collect_namespaces c found selectors)
  unfolding collect_namespaces
  collect_namespaces_keeps found [] = Keeps-pure found
  collect_namespaces_keeps found (ls ∷ rest) = elim (Result-cases (c.as_selector ls)) [
    | inl (selector, e) ↦
        rw (e, collect_namespaces)
          (Keeps-bind _ _ (Keeps-ignore_not_found c _ (allows.list_namespaces selector))
            (λ more. collect_namespaces_keeps (found ++ more) rest))
    | inr (e, f) ↦ rw (f, collect_namespaces) (Keeps-fail e)
  ]

  pub get_namespaces_keeps :
      (selectors : List LabelSelector) → Keeps P (get_namespaces_for_selector_slice c selectors)
  unfolding get_namespaces_for_selector_slice
  get_namespaces_keeps selectors =
      Keeps-bind _ _ (collect_namespaces_keeps [] selectors) (λ found. Keeps-pure _)

  gather_keeps :
      (kind : Kind) (t : Tenant) (namespaces : List Namespace)
      → t.name ≡ tenant
      → Keeps P (gather c kind t namespaces)
  unfolding gather classifying
  gather_keeps other_kind t namespaces e = Keeps-fail _
  gather_keeps kind t namespaces e =
      Keeps-bind (collect_resources c kind namespaces) (classifying c t.name)
        (collect_resources_keeps kind namespaces)
        (λ rs. record { at = λ w h. rw e (classify_keeps rs w h) })

  pub get_resource_owned_keeps :
      (kind : Kind) (t : Tenant)
      → t.name ≡ tenant
      → Keeps P (get_resource_owned_by_tenant c (some kind) t)
  unfolding get_resource_owned_by_tenant
  get_resource_owned_keeps kind t e =
      Keeps-bind _ _
        (Keeps-wrapping _ _ (get_namespaces_keeps t.spec.subscription_namespace_selectors))
        (λ namespaces. gather_keeps kind t namespaces e)

  pub get_resources_referencing_keeps :
      (t : Tenant) (kind : Kind) (selected : List Resource)
      → Keeps P (get_resources_referencing_tenant_but_not_selected c t kind selected)
  unfolding get_resources_referencing_tenant_but_not_selected
  get_resources_referencing_keeps t kind selected =
      Keeps-bind _ _ (Keeps-wrapping _ _ (Keeps-ignore_not_found c _ (list_of_keeps kind t.name)))
        (λ found. Keeps-pure _)

  pub get_logsource_keeps : (t : Tenant) → Keeps P (get_logsource_namespace_names_for_tenant c t)
  unfolding get_logsource_namespace_names_for_tenant
  get_logsource_keeps t =
      Keeps-bind _ _ (get_namespaces_keeps t.spec.log_source_namespace_selectors)
        (λ found. Keeps-pure _)
