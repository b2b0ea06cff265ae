-- ===== src/Components/Relations.antt =====
-- common.go: which tenant an output is found to belong to.
use telemetry_controller.Prelude.{
  String, ◌≡◌, refl, sym, ap, ◌∙◌, inl, inr, Bool, true, false, Option, List, [], ◌∷◌, items, In,
  contains→In, string_eq, ◌==◌, eq_iff, arith, if◌then◌else◌,
}
use telemetry_controller.Api.{NamespacedName, name_instance, Tenant}
use telemetry_controller.Cluster.{Result, ok, err}
use telemetry_controller.Components.{
  ResourceRelations, find_outputs_for_subscription, is_output_in_subscription, any_subscription,
  get_tenant, get_tenant_by_name, find_tenant, find_tenant_for_output,
}

any_subscription-In :
    (r : ResourceRelations) (o : NamespacedName) (ss : List NamespacedName)
    → any_subscription r o ss ≡ true
    → (s : NamespacedName) × In s ss × In o (find_outputs_for_subscription r s)
unfolding any_subscription is_output_in_subscription
any_subscription-In r o [] h = ground arith
any_subscription-In r o (s ∷ ss) h =
    step (is_output_in_subscription r s o) refl h (any_subscription-In r o ss)
  where
    Found : List NamespacedName → Type 0
    Found ts = (t : NamespacedName) × In t ts × In o (find_outputs_for_subscription r t)

    step :
        (b : Bool)
        → is_output_in_subscription r s o ≡ b
        → (if b then true else any_subscription r o ss) ≡ true
        → (any_subscription r o ss ≡ true → Found ss)
        → Found (s ∷ ss)
    step true e k rest = (s, inl refl, contains→In (find_outputs_for_subscription r s) o e)
    step false e k rest = let (t, at, out) = rest k in (t, inr at, out)

get_tenant-In :
    (ts : List Tenant) (n : String) (t : Tenant) → get_tenant ts n ≡ ok t → In t ts × (t.name ≡ n)
unfolding get_tenant
get_tenant-In [] n t h = ground arith
get_tenant-In (u ∷ ts) n t h = step (u.name == n) refl h (get_tenant-In ts n t)
  where
    step :
        (b : Bool)
        → (u.name == n) ≡ b
        → (if b then ok u else get_tenant ts n) ≡ ok t
        → (get_tenant ts n ≡ ok t → In t ts × (t.name ≡ n))
        → In t (u ∷ ts) × (t.name ≡ n)
    step true e k rest =
        let same : u ≡ t = ap {A = Result Tenant} (λ q. elim q [ ok v ↦ v | err f ↦ u ]) k in
        (inl (sym same), ap (λ v. let w : Tenant = v in w.name) (sym same) ∙ (eq_iff u.name n).0 e)
    step false e k rest = (inr (rest k).0, (rest k).1)

-- The tenant has a subscription that lists the output.
abbrev pub Reaches :
    ResourceRelations
    → List (String × Option (List NamespacedName))
    → NamespacedName
    → Tenant
    → Type 0
Reaches r m o t =
    (subs : Option (List NamespacedName)) × In (t.name, subs) m
    × ((s : NamespacedName) × In s (items subs) × In o (find_outputs_for_subscription r s))

find_tenant-In :
    (r : ResourceRelations) (o : NamespacedName) (m : List (String × Option (List NamespacedName)))
    (t : Tenant)
    → find_tenant r o m ≡ ok t
    → In t r.tenants × Reaches r m o t
unfolding find_tenant get_tenant_by_name
find_tenant-In r o [] t h = ground arith
find_tenant-In r o ((n, subs) ∷ m) t h =
    step (any_subscription r o (items subs)) refl h (find_tenant-In r o m t)
  where
    step :
        (b : Bool)
        → any_subscription r o (items subs) ≡ b
        → (if b then get_tenant_by_name r n else find_tenant r o m) ≡ ok t
        → (find_tenant r o m ≡ ok t → In t r.tenants × Reaches r m o t)
        → In t r.tenants × Reaches r ((n, subs) ∷ m) o t
    step true e k rest =
        let (at, same) = get_tenant-In r.tenants n t k in
        (at, (subs, inl (ap (λ x. (x, subs)) same), any_subscription-In r o (items subs) e))
    step false e k rest = let (at, (found, here, out)) = rest k in (at, (found, inr here, out))

-- A tenant that is found for an output is one of the tenants, and one of its subscriptions lists
-- the output.
pub find_tenant_for_output-ok :
    (r : ResourceRelations) (o : NamespacedName) (t : Tenant)
    → find_tenant_for_output r o ≡ ok t
    → In t r.tenants × Reaches r r.tenant_subscription_map o t
unfolding find_tenant_for_output
find_tenant_for_output-ok r o t h = find_tenant-In r o r.tenant_subscription_map t h
