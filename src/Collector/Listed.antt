-- ===== src/Collector/Listed.antt =====
-- collector_manager.go: the map of the tenants' subscriptions holds the list of each tenant.
use telemetry_controller.Prelude.{
  String, ◌⊎◌, ◌≡◌, refl, sym, ap, ◌∙◌, subst, inl, inr, some, List, [], ◌∷◌, ◌++◌, items, In,
  lookup, insert, lookup-insert, lookup-insert_self, Bool-cases, string_eq, ◌==◌, eq_iff,
}
use telemetry_controller.Api.{state_failed, Bridge, Tenant}
use telemetry_controller.Cluster.{Client, pure, Result, ok, err}
use telemetry_controller.Cluster.Writes.{Post, Returns, Returns-bind, Returns-then}
use telemetry_controller.ConfGen.Assembly.Received.{AreDistinct}
use telemetry_controller.Collector.{
  Subscriptions, NameMap, Gathered, get_subscriptions, get_bridges, gather_tenant, unless_failed,
  gather_tenants,
}

-- The list of a tenant is in the map.
abbrev pub IsListed : NameMap String → Tenant → Type 0
IsListed m t = lookup t.name m ≡ some t.status.subscriptions

module _ {W : Type 0} (c : Client W) (tenants : List Tenant) (distinct : AreDistinct tenants) where
  -- Another tenant does not change it.
  insert_keeps-IsListed :
      (t u : Tenant) (m : NameMap String)
      → In t tenants
      → In u tenants
      → IsListed m u
      → IsListed (insert t.name t.status.subscriptions m) u
  insert_keeps-IsListed t u m at there h =
      lookup-insert t.name u.name t.status.subscriptions m ∙ elim (Bool-cases (t.name == u.name)) [
        | inl same ↦ rw same (
            ap (λ x. let y : Tenant = x in some (let st = y.status in st.subscriptions))
              (distinct t u at there ((eq_iff t.name u.name).0 same)))
        | inr other ↦ rw other h
      ]

  -- The listed tenants stay so, and so does a new one.
  record Lists (before after : Gathered) (t : Tenant) : Type 0 where
    pub kept :
        (u : Tenant)
        → In u tenants
        → IsListed before.tenant_subscription_map u
        → IsListed after.tenant_subscription_map u
    pub new : IsListed after.tenant_subscription_map t

  gather_tenant-Lists :
      (t : Tenant) (g : Gathered)
      → In t tenants
      → Returns (λ after. Lists g after t) (gather_tenant c t g)
  unfolding gather_tenant
  gather_tenant-Lists t g at =
      Returns-bind (λ after. Lists g after t)
        (get_subscriptions c t.name (items t.status.subscriptions) g.subscriptions) _
        (λ ss.
          Returns-bind (λ after. Lists g after t)
            (get_bridges c t.name (items t.status.connected_bridges))
            (λ bridges. pure (gathered ss bridges))
            (λ bridges. record {
              from = λ w. record {
                kept = λ u there h. insert_keeps-IsListed t u g.tenant_subscription_map at there h;
                new = lookup-insert_self t.name t.status.subscriptions g.tenant_subscription_map;
              };
            }))
    where
      gathered : Subscriptions → List Bridge → Gathered
      gathered after bridges = record {
        subscriptions = after;
        bridges = g.bridges ++ bridges;
        tenant_subscription_map = insert t.name t.status.subscriptions g.tenant_subscription_map;
      }

  unless_failed-Lists :
      (t : Tenant) (g : Gathered)
      → In t tenants
      → Returns (λ after. Lists g after t) (unless_failed c t g)
  unfolding unless_failed
  unless_failed-Lists t g at = elim (Bool-cases (t.status.state == state_failed)) [
    | inl failed ↦ rw failed (record { from = λ w. tt })
    | inr other ↦ rw other (gather_tenant-Lists t g at)
  ]

  -- All the tenants that were gathered are listed.
  abbrev AllListed : List Tenant → Gathered → Type 0
  AllListed ts g = (u : Tenant) → In u ts → IsListed g.tenant_subscription_map u

  pub gather_tenants-AllListed :
      (ts past : List Tenant) (g : Gathered)
      → ((t : Tenant) → In t ts → In t tenants)
      → ((t : Tenant) → In t past → In t tenants)
      → AllListed past g
      → Returns
          (λ after. (u : Tenant) → In u past ⊎ In u ts → IsListed after.tenant_subscription_map u)
          (gather_tenants c ts g)
  unfolding gather_tenants
  gather_tenants-AllListed [] past g inside before h = record {
    from = λ w u at. elim at [ inl x ↦ h u x | inr x ↦ absurd x ];
  }
  gather_tenants-AllListed (t ∷ ts) past g inside before h =
      Returns-then (λ after. Lists g after t)
        (λ after.
          (u : Tenant) → In u past ⊎ In u (t ∷ ts) → IsListed after.tenant_subscription_map u)
        (unless_failed c t g) (gather_tenants c ts) (unless_failed-Lists t g (inside t (inl refl)))
        (λ g' x. record {
          from = λ w. widen (gather_tenants c ts g' w).0 (
              (gather_tenants-AllListed ts (t ∷ past) g' (λ u there. inside u (inr there))
                  (λ u there. elim there [
                    | inl e ↦ subst (λ y. In y tenants) (sym e) (inside t (inl refl))
                    | inr y ↦ before u y
                  ])
                  (λ u there. elim there [
                    | inl e ↦ subst (IsListed g'.tenant_subscription_map) (sym e) x.new
                    | inr y ↦ x.kept u (before u y) (h u y)
                  ])).from
                w);
        })
    where
      widen :
          (r : Result Gathered)
          → Post
              (λ after.
                (u : Tenant) → In u (t ∷ past) ⊎ In u ts → IsListed after.tenant_subscription_map u)
              r
          → Post
              (λ after.
                (u : Tenant) → In u past ⊎ In u (t ∷ ts) → IsListed after.tenant_subscription_map u)
              r
      widen (ok after) k = λ u at. elim at [
        | inl x ↦ k u (inl (inr x))
        | inr x ↦ elim x [ inl e ↦ k u (inl (inl e)) | inr y ↦ k u (inr y) ]
      ]
      widen (err e) k = tt
