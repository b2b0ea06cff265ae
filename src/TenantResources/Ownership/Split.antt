-- ===== src/TenantResources/Ownership/Split.antt =====
-- How the listed resources are split between what a tenant owns, takes over and leaves alone.
use telemetry_controller.Prelude.{
  String, ◌≡◌, refl, Bool, true, not, ◌&&◌, Option, none, some, List, [], ◌∷◌, arith, eq_iff,
  string_eq, ◌==◌, keep, All, if◌then◌else◌,
}
use telemetry_controller.Cluster.{Client, Namespace}
use telemetry_controller.Api.{Tenant}
use telemetry_controller.Cluster.Writes.{Returns, Returns-bind}
use telemetry_controller.TenantResources.{Resource, Kind, other_kind, tenant_of, update}
use telemetry_controller.TenantResources.Ownership.{
  Owned, is_foreign, conflicting, sort_in, classify, classifying, collect_resources, gather,
  get_resource_owned_by_tenant,
}

-- The resources of a split have the tenant that their list says.
pub record IsSplit (tenant : String) (o : Owned) : Type 0 where
  pub owned : All (λ r. tenant_of r ≡ tenant) o.owned_list
  pub unowned : All (λ r. tenant_of r ≡ "") o.update_list

-- The tests that a reader of the code expects: a resource that names no tenant, and one that
-- names this tenant.
abbrev pub is_unowned : Resource → Bool
is_unowned r = tenant_of r == ""

abbrev pub is_own : String → Resource → Bool
is_own tenant r = not (tenant_of r == "") && tenant_of r == tenant

All-keep :
    {A : Type 0} (P : A → Type 0) (p : A → Bool) (xs : List A)
    → ((x : A) → p x ≡ true → P x)
    → All P (keep p xs)
All-keep P p [] h = tt
All-keep P p (x ∷ xs) h = ground (arith, h x, All-keep P p xs h)

module _ {W : Type 0} (c : Client W) where
  after : String → Resource → W → W
  after tenant res w = if is_foreign tenant res then (update c (conflicting res) w).1 else w

  owned_list-classify :
      (tenant : String) (rs : List Resource) (w : W)
      → (classify c tenant rs w).0.owned_list ≡ keep (is_own tenant) rs
  unfolding classify is_foreign sort_in after
  owned_list-classify tenant [] w = refl
  owned_list-classify tenant (res ∷ rest) w =
      ground (arith, owned_list-classify tenant rest (after tenant res w))

  update_list-classify :
      (tenant : String) (rs : List Resource) (w : W)
      → (classify c tenant rs w).0.update_list ≡ keep is_unowned rs
  unfolding classify is_foreign sort_in after
  update_list-classify tenant [] w = refl
  update_list-classify tenant (res ∷ rest) w =
      ground (arith, update_list-classify tenant rest (after tenant res w))

  classify-IsSplit :
      (tenant : String) (rs : List Resource) (w : W) → IsSplit tenant (classify c tenant rs w).0
  classify-IsSplit tenant rs w = record {
    owned = rw (owned_list-classify tenant rs w) (
        All-keep (λ r. tenant_of r ≡ tenant) (is_own tenant) rs
          (λ r h. ground (arith, eq_iff (tenant_of r) tenant)));
    unowned = rw (update_list-classify tenant rs w) (
        All-keep (λ r. tenant_of r ≡ "") is_unowned rs
          (λ r h. ground (arith, eq_iff (tenant_of r) "")));
  }

  gather-IsSplit :
      (kind : Kind) (t : Tenant) (namespaces : List Namespace)
      → Returns (IsSplit t.name) (gather c kind t namespaces)
  unfolding gather classifying
  gather-IsSplit other_kind t namespaces = record { from = λ w. tt }
  gather-IsSplit kind t namespaces =
      Returns-bind (IsSplit t.name) (collect_resources c kind namespaces) (classifying c t.name)
        (λ rs. record { from = classify-IsSplit t.name rs })

  -- Whatever the cluster holds, the resources that a tenant is given as owned name it in their
  -- status, and those that it is given to take over name no tenant.
  pub get_resource_owned_by_tenant-IsSplit :
      (kind : Option Kind) (t : Tenant)
      → Returns (IsSplit t.name) (get_resource_owned_by_tenant c kind t)
  unfolding get_resource_owned_by_tenant
  get_resource_owned_by_tenant-IsSplit none t = record { from = λ w. tt }
  get_resource_owned_by_tenant-IsSplit (some kind) t =
      Returns-bind (IsSplit t.name) _ _ (λ namespaces. gather-IsSplit kind t namespaces)
