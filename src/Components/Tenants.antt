-- ===== src/Components/Tenants.antt =====
-- common.go: when a tenant is found for an output.
use telemetry_controller.Prelude.{
  String, ◌≡◌, refl, ap, subst, inl, inr, true, Option, List, [], ◌∷◌, items, All, In, In→contains,
  Bool-cases, string_eq, ◌==◌, eq_iff, arith,
}
use telemetry_controller.Api.{NamespacedName, name_instance, Tenant}
use telemetry_controller.Cluster.{ok}
use telemetry_controller.Components.{
  ResourceRelations, find_outputs_for_subscription, is_output_in_subscription, any_subscription,
  get_tenant, get_tenant_by_name, find_tenant, find_tenant_for_output,
}

any_subscription-true :
    (r : ResourceRelations) (o s : NamespacedName) (ss : List NamespacedName)
    → In s ss
    → In o (find_outputs_for_subscription r s)
    → any_subscription r o ss ≡ true
unfolding any_subscription is_output_in_subscription
any_subscription-true r o s [] h out = elim h [ ]
any_subscription-true r o s (u ∷ ss) (inl e) out =
    rw
      (In→contains (find_outputs_for_subscription r u) o
        (subst (λ x. In o (find_outputs_for_subscription r x)) e out))
      refl
any_subscription-true r o s (u ∷ ss) (inr h) out =
    elim (Bool-cases (is_output_in_subscription r u o)) [
      | inl yes' ↦ rw yes' refl
      | inr other ↦ rw other (any_subscription-true r o s ss h out)
    ]

get_tenant_found :
    (t : Tenant) (ts : List Tenant) (n : String)
    → In t ts
    → t.name ≡ n
    → (u : Tenant) × (get_tenant ts n ≡ ok u)
unfolding get_tenant
get_tenant_found t [] n h same = elim h [ ]
get_tenant_found t (u ∷ ts) n h same = elim (Bool-cases (u.name == n)) [
  | inl here ↦ (u, rw here refl)
  | inr other ↦ rw other (elim h [
    | inl e ↦
        absurd (
          ground
            (arith, other, (eq_iff u.name n).1, ap (λ x. let y : Tenant = x in y.name) e, same))
    | inr later ↦ get_tenant_found t ts n later same
  ])
]

-- If every name in the map is that of a tenant, then one is found for an output that a subscription
-- of the map lists.
find_tenant_found :
    (r : ResourceRelations) (o s : NamespacedName) (n : String)
    (subs : Option (List NamespacedName)) (m : List (String × Option (List NamespacedName)))
    → All (λ e. (t : Tenant) × In t r.tenants × (t.name ≡ e.0)) m
    → In (n, subs) m
    → In s (items subs)
    → In o (find_outputs_for_subscription r s)
    → (t : Tenant) × (find_tenant r o m ≡ ok t)
unfolding find_tenant get_tenant_by_name
find_tenant_found r o s n subs [] known h at out = elim h [ ]
find_tenant_found r o s n subs ((k, ss) ∷ m) known h at out =
    elim (Bool-cases (any_subscription r o (items ss))) [
      | inl here ↦
          let (t, there, same) = known.0 in rw here (get_tenant_found t r.tenants k there same)
      | inr other ↦ rw other (elim h [
        | inl e ↦ absurd (
            ground (
              arith,
              other,
              any_subscription-true r o s (items ss)
                  (subst
                    (λ x. let y : String × Option (List NamespacedName) = x in In s (items y.1)) e
                    at)
                  out,
            ))
        | inr later ↦ find_tenant_found r o s n subs m known.1 later at out
      ])
    ]

pub find_tenant_for_output_found :
    (r : ResourceRelations) (o s : NamespacedName) (n : String)
    (subs : Option (List NamespacedName))
    → All (λ e. (t : Tenant) × In t r.tenants × (t.name ≡ e.0)) r.tenant_subscription_map
    → In (n, subs) r.tenant_subscription_map
    → In s (items subs)
    → In o (find_outputs_for_subscription r s)
    → (t : Tenant) × (find_tenant_for_output r o ≡ ok t)
unfolding find_tenant_for_output
find_tenant_for_output_found r o s n subs known h at out =
    find_tenant_found r o s n subs r.tenant_subscription_map known h at out
