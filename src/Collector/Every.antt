-- ===== src/Collector/Every.antt =====
-- collector_manager.go: what holds of every subscription that is gathered, from what is read.
use telemetry_controller.Prelude.{
  refl, inl, inr, List, [], ◌∷◌, ◌++◌, items, All, In, insert, All-insert, Bool-cases, string_eq,
  ◌==◌, ◌⧺◌,
}
use telemetry_controller.Api.{
  NamespacedName, name_instance, state_failed, Subscription, Bridge, Tenant,
}
use telemetry_controller.Cluster.{Client, pure, wrapping}
use telemetry_controller.Cluster.Writes.{Returns, Returns-bind, Returns-then, Returns-wrapping}
use telemetry_controller.Collector.{
  Subscriptions, Gathered, get_subscriptions, get_bridges, gather_tenant, unless_failed,
  gather_tenants,
}

module _ {W : Type 0} (c : Client W) (P : NamespacedName × Subscription → Type 0)
    (tenants : List Tenant)
    (reads : (t : Tenant) (n : NamespacedName)
      → In t tenants
      → In n (items (let st = t.status in st.subscriptions))
      → Returns (λ s. P (n, s)) (c.get_subscription n)) where
  get_subscriptions-Every :
      (t : Tenant) (ns : List NamespacedName) (m : Subscriptions)
      → In t tenants
      → ((n : NamespacedName) → In n ns → In n (items t.status.subscriptions))
      → All P m
      → Returns (All P) (get_subscriptions c t.name ns m)
  unfolding get_subscriptions
  get_subscriptions-Every t [] m here inside h = record { from = λ w. h }
  get_subscriptions-Every t (n ∷ ns) m here inside h =
      Returns-then (λ s. P (n, s)) (All P)
        (wrapping ("failed getting subscriptions for tenant " ⧺ t.name) (c.get_subscription n))
        (λ s. get_subscriptions c t.name ns (insert n s m))
        (Returns-wrapping (λ s. P (n, s)) ("failed getting subscriptions for tenant " ⧺ t.name)
          (c.get_subscription n) (reads t n here (inside n (inl refl))))
        (λ s new.
          get_subscriptions-Every t ns (insert n s m) here (λ k at. inside k (inr at))
            (All-insert P n s m new h))

  gather_tenant-Every :
      (t : Tenant) (g : Gathered)
      → In t tenants
      → All P g.subscriptions
      → Returns (λ after. All P after.subscriptions) (gather_tenant c t g)
  unfolding gather_tenant
  gather_tenant-Every t g here h =
      Returns-then (All P) (λ after. All P after.subscriptions) _ _
        (get_subscriptions-Every t (items t.status.subscriptions) g.subscriptions here (λ n at. at)
          h)
        (λ ss new.
          Returns-bind (λ after. All P after.subscriptions)
            (get_bridges c t.name (items t.status.connected_bridges))
            (λ bridges. pure (gathered ss bridges)) (λ bridges. record { from = λ w. new }))
    where
      gathered : Subscriptions → List Bridge → Gathered
      gathered after bridges = record {
        subscriptions = after;
        bridges = g.bridges ++ bridges;
        tenant_subscription_map = insert t.name t.status.subscriptions g.tenant_subscription_map;
      }

  unless_failed-Every :
      (t : Tenant) (g : Gathered)
      → In t tenants
      → All P g.subscriptions
      → Returns (λ after. All P after.subscriptions) (unless_failed c t g)
  unfolding unless_failed
  unless_failed-Every t g here h = elim (Bool-cases (t.status.state == state_failed)) [
    | inl failed ↦ rw failed (record { from = λ w. tt })
    | inr other ↦ rw other (gather_tenant-Every t g here h)
  ]

  pub gather_tenants-Every :
      (ts : List Tenant) (g : Gathered)
      → ((t : Tenant) → In t ts → In t tenants)
      → All P g.subscriptions
      → Returns (λ after. All P after.subscriptions) (gather_tenants c ts g)
  unfolding gather_tenants
  gather_tenants-Every [] g inside h = record { from = λ w. h }
  gather_tenants-Every (t ∷ ts) g inside h =
      Returns-then (λ after. All P after.subscriptions) (λ after. All P after.subscriptions)
        (unless_failed c t g) (gather_tenants c ts)
        (unless_failed-Every t g (inside t (inl refl)) h)
        (λ g' new. gather_tenants-Every ts g' (λ u at. inside u (inr at)) new)
