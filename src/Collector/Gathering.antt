-- ===== src/Collector/Gathering.antt =====
-- collector_manager.go: what the loop over the tenants gathers.
use telemetry_controller.Prelude.{
  String, ◌≡◌, refl, inl, inr, Option, List, [], ◌∷◌, ◌++◌, items, All, In, insert, IsKey,
  insert-IsKey, insert_keeps-IsKey, All-insert, Bool-cases, string_eq, ◌==◌, ◌⧺◌,
}
use telemetry_controller.Api.{
  NamespacedName, name_instance, state_failed, Subscription, subscription_name, Bridge, Tenant,
}
use telemetry_controller.Cluster.{Result, ok, err, Client, pure, wrapping}
use telemetry_controller.Cluster.Writes.{
  Post, Returns, Returns-bind, Returns-then, Returns-wrapping,
}
use telemetry_controller.Collector.{
  Subscriptions, NameMap, Gathered, get_subscriptions, get_bridges, gather_tenant, unless_failed,
  gather_tenants,
}

-- Each subscription is kept under its own name.
abbrev pub IsNamed : Subscriptions → Type 0
IsNamed m = All (λ e. subscription_name e.1 ≡ e.0) m

-- The names of a slice are all in the map.
abbrev pub AreKnown : Subscriptions → Option (List NamespacedName) → Type 0
AreKnown m ns = All (λ n. IsKey n m) (items ns)

-- What the loop over the tenants keeps of what it gathers.
pub record IsSound (tenants : List Tenant) (g : Gathered) : Type 0 where
  pub named : IsNamed g.subscriptions
  pub known : All (λ e. AreKnown g.subscriptions e.1) g.tenant_subscription_map
  pub owners : All (λ e. (t : Tenant) × In t tenants × (t.name ≡ e.0)) g.tenant_subscription_map

-- A map that has what another has, and names too.
record Extends (ns : List NamespacedName) (before after : Subscriptions) : Type 0 where
  pub named : IsNamed after
  pub kept : (n : NamespacedName) → IsKey n before → IsKey n after
  pub found : All (λ n. IsKey n after) ns

module _ {W : Type 0} (c : Client W)
    (reads : (n : NamespacedName)
      → Returns (λ s. subscription_name s ≡ n) (c.get_subscription n)) where
  get_subscriptions-Extends :
      (tenant : String) (ns : List NamespacedName) (m : Subscriptions)
      → IsNamed m
      → Returns (Extends ns m) (get_subscriptions c tenant ns m)
  unfolding get_subscriptions
  get_subscriptions-Extends tenant [] m h = record {
    from = λ w. record { named = h; kept = λ n k. k; found = tt };
  }
  get_subscriptions-Extends tenant (n ∷ ns) m h =
      Returns-then (λ s. subscription_name s ≡ n) (Extends (n ∷ ns) m)
        (wrapping ("failed getting subscriptions for tenant " ⧺ tenant) (c.get_subscription n))
        (λ s. get_subscriptions c tenant ns (insert n s m))
        (Returns-wrapping (λ s. subscription_name s ≡ n)
          ("failed getting subscriptions for tenant " ⧺ tenant) (c.get_subscription n) (reads n))
        (λ s same. record {
          from = λ w. widen (get_subscriptions c tenant ns (insert n s m) w).0 s (
              (get_subscriptions-Extends tenant ns (insert n s m)
                  (All-insert (λ e. subscription_name e.1 ≡ e.0) n s m same h)).from
                w);
        })
    where
      widen :
          (r : Result Subscriptions) (s : Subscription)
          → Post (Extends ns (insert n s m)) r
          → Post (Extends (n ∷ ns) m) r
      widen (ok after) s x = record {
        named = x.named;
        kept = λ k h. x.kept k (insert_keeps-IsKey n k s m h);
        found = (x.kept n (insert-IsKey n s m), x.found);
      }
      widen (err e) s x = tt

  All-kept :
      (before after : Subscriptions) (ns : List NamespacedName)
      → ((n : NamespacedName) → IsKey n before → IsKey n after)
      → All (λ n. IsKey n before) ns
      → All (λ n. IsKey n after) ns
  All-kept before after [] f h = tt
  All-kept before after (n ∷ ns) f h = (f n h.0, All-kept before after ns f h.1)

  known-kept :
      (before after : Subscriptions) (m : NameMap String)
      → ((n : NamespacedName) → IsKey n before → IsKey n after)
      → All (λ e. AreKnown before e.1) m
      → All (λ e. AreKnown after e.1) m
  known-kept before after [] f h = tt
  known-kept before after ((k, ns) ∷ m) f h =
      (All-kept before after (items ns) f h.0, known-kept before after m f h.1)

  gather_tenant-IsSound :
      (tenants : List Tenant) (t : Tenant) (g : Gathered)
      → In t tenants
      → IsSound tenants g
      → Returns (IsSound tenants) (gather_tenant c t g)
  unfolding gather_tenant
  gather_tenant-IsSound tenants t g here sound =
      Returns-then (Extends (items t.status.subscriptions) g.subscriptions) (IsSound tenants) _ _
        (get_subscriptions-Extends t.name (items t.status.subscriptions) g.subscriptions
          sound.named)
        (λ after x.
          Returns-bind (IsSound tenants) (get_bridges c t.name (items t.status.connected_bridges))
            (λ bridges. pure (gathered after bridges))
            (λ bridges. record {
              from = λ w. record {
                named = x.named;
                known =
                    All-insert (λ e. AreKnown after e.1) t.name t.status.subscriptions
                      g.tenant_subscription_map x.found
                      (known-kept g.subscriptions after g.tenant_subscription_map x.kept
                        sound.known);
                owners =
                    All-insert (λ e. (u : Tenant) × In u tenants × (u.name ≡ e.0)) t.name
                      t.status.subscriptions g.tenant_subscription_map (t, here, refl) sound.owners;
              };
            }))
    where
      gathered : Subscriptions → List Bridge → Gathered
      gathered after bridges = record {
        subscriptions = after;
        bridges = g.bridges ++ bridges;
        tenant_subscription_map = insert t.name t.status.subscriptions g.tenant_subscription_map;
      }

  unless_failed-IsSound :
      (tenants : List Tenant) (t : Tenant) (g : Gathered)
      → In t tenants
      → IsSound tenants g
      → Returns (IsSound tenants) (unless_failed c t g)
  unfolding unless_failed
  unless_failed-IsSound tenants t g here sound =
      elim (Bool-cases (t.status.state == state_failed)) [
        | inl failed ↦ rw failed (record { from = λ w. tt })
        | inr other ↦ rw other (gather_tenant-IsSound tenants t g here sound)
      ]

  pub gather_tenants-IsSound :
      (tenants ts : List Tenant) (g : Gathered)
      → ((t : Tenant) → In t ts → In t tenants)
      → IsSound tenants g
      → Returns (IsSound tenants) (gather_tenants c ts g)
  unfolding gather_tenants
  gather_tenants-IsSound tenants [] g inside sound = record { from = λ w. sound }
  gather_tenants-IsSound tenants (t ∷ ts) g inside sound =
      Returns-then (IsSound tenants) (IsSound tenants) (unless_failed c t g) (gather_tenants c ts)
        (unless_failed-IsSound tenants t g (inside t (inl refl)) sound)
        (λ g' sound'. gather_tenants-IsSound tenants ts g' (λ u there. inside u (inr there)) sound')
