-- ===== src/ConfGen/Service/Routed.antt =====
-- otel_conf_gen.go: the tables of the routing connectors name only pipelines that are there.
use telemetry_controller.Prelude.{
  String, ◌≡◌, refl, sym, subst, inl, inr, Option, some, List, [], ◌∷◌, All, All-In, All-insert, In,
  IsKey, lookup-In, map-IsKey, string_eq, ◌⧺◌,
}
use telemetry_controller.Api.{
  NamespacedName, name_instance, Output, Subscription, subscription_name, Tenant, Bridge,
}
use telemetry_controller.Components.{find_outputs_for_subscription}
use telemetry_controller.Pipelines.{Pipeline}
use telemetry_controller.Connectors.{
  generate_routing_connector_for_bridge, subscription_pipeline, output_pipeline,
}
use telemetry_controller.Connectors.Routed.{Routes, tenant-Routes, subscription-Routes}
use telemetry_controller.ConfGen.{OtelColConfigInput}
use telemetry_controller.ConfGen.Service.{
  Connectors, names_of_tenant, find_output, tenant_connector, tenant_connectors,
  subscription_connector, subscription_connectors, bridge_connectors, generate_routing_connectors,
  generate_named_pipelines, assemble_pipelines,
}
use telemetry_controller.ConfGen.Service.Keys.{names_of_tenant-In, named-EntersAll}
use telemetry_controller.ConfGen.Service.Limiter.{with_limiter, assemble_pipelines-map}

-- The relations hold what they list: a subscription is kept under its own name, and a tenant lists
-- it; the outputs of a subscription are there; a bridge ends at a tenant that is in the map.
pub record IsServed (i : OtelColConfigInput) : Type 0 where
  pub named : All (λ e. subscription_name e.1 ≡ e.0) i.relations.subscriptions
  pub owned :
      All (λ e. (tenant : String) × In e.0 (names_of_tenant i tenant)) i.relations.subscriptions
  pub outputs :
      (s n : NamespacedName)
      → In n (find_outputs_for_subscription i.relations s)
      → (o : Output) × (find_output n i.relations.outputs_with_secret_data ≡ some o)
  pub bridges :
      All (λ b. IsKey b.spec.target_tenant i.relations.tenant_subscription_map) i.relations.bridges

module _ (i : OtelColConfigInput) (good : IsServed i) where
  abbrev pub Exists : String → Type 0
  Exists k = IsKey k (assemble_pipelines i)

  -- The memory limiter leaves the names of the pipelines.
  limited-IsKey : (k : String) → IsKey k (generate_named_pipelines i) → Exists k
  unfolding with_limiter
  limited-IsKey k h = subst (IsKey k) (sym (assemble_pipelines-map i)) (
      map-IsKey {V = Pipeline} (λ q. record q { processors = "memory_limiter" ∷ q.processors }) k
        (generate_named_pipelines i) h)

  abbrev pub AllRoute : Connectors → Type 0
  AllRoute m = All (λ e. Routes Exists e.1) m

  -- A subscription that a tenant lists has its pipelines.
  own-Exists :
      (tenant : String) (s : NamespacedName)
      → In s (names_of_tenant i tenant)
      → Exists (subscription_pipeline tenant s)
  own-Exists tenant s at =
      let (subs, here, inside) = names_of_tenant-In i tenant s at in
      let entered = (named-EntersAll i tenant subs here).each s at in limited-IsKey _ entered.own

  root-Exists :
      (tenant : String) (subs : Option (List NamespacedName))
      → In (tenant, subs) i.relations.tenant_subscription_map
      → Exists ("logs/tenant_" ⧺ tenant)
  root-Exists tenant subs at =
      let entered = named-EntersAll i tenant subs at in limited-IsKey _ entered.root

  output-Exists :
      (n : NamespacedName) (s : Subscription) (o : NamespacedName)
      → In (n, s) i.relations.subscriptions
      → In o (find_outputs_for_subscription i.relations (subscription_name s))
      → Exists (output_pipeline (subscription_name s) o)
  output-Exists n s o at out =
      let (tenant, lists) = All-In _ _ (n, s) good.owned at in
      let (subs, here, inside) = names_of_tenant-In i tenant n lists in
      let (x, found) = good.outputs (subscription_name s) o out in
      let same =
        All-In (λ e. subscription_name e.1 ≡ e.0) i.relations.subscriptions (n, s) good.named at in
      let entered =
        (named-EntersAll i tenant subs here).each (subscription_name s)
          (subst (λ y. In y (names_of_tenant i tenant)) (sym same) lists) in
      limited-IsKey _ (entered.outputs o x out found)

  tenant_connectors-AllRoute :
      (ts : List Tenant) (m : Connectors) → AllRoute m → AllRoute (tenant_connectors i ts m)
  unfolding tenant_connectors tenant_connector
  tenant_connectors-AllRoute [] m h = h
  tenant_connectors-AllRoute (t ∷ ts) m h =
      tenant_connectors-AllRoute ts _ (added (names_of_tenant i t.name) (λ n at. at))
    where
      added :
          (ns : List NamespacedName)
          → ((n : NamespacedName) → In n ns → In n (names_of_tenant i t.name))
          → AllRoute (tenant_connector i t ns m)
      added [] inside = h
      added (k ∷ ns) inside =
          All-insert (λ e. Routes Exists e.1) _ _ m
            (tenant-Routes Exists t.name i.relations.subscriptions t.spec.route_config (k ∷ ns)
              (λ n at s found.
                subst (λ x. Exists (subscription_pipeline t.name x))
                  (sym (
                    All-In (λ e. subscription_name e.1 ≡ e.0) i.relations.subscriptions (n, s)
                      good.named (lookup-In n s i.relations.subscriptions found)))
                  (own-Exists t.name n (inside n at))))
            h

  subscription_connectors-AllRoute :
      (ss : List (NamespacedName × Subscription)) (m : Connectors)
      → ((n : NamespacedName) (s : Subscription)
          → In (n, s) ss
          → In (n, s) i.relations.subscriptions)
      → AllRoute m
      → AllRoute (subscription_connectors i ss m)
  unfolding subscription_connectors subscription_connector
  subscription_connectors-AllRoute [] m inside h = h
  subscription_connectors-AllRoute ((n, s) ∷ ss) m inside h =
      subscription_connectors-AllRoute ss _ (λ k u at. inside k u (inr at))
        (added (find_outputs_for_subscription i.relations (subscription_name s)) (λ o at. at))
    where
      added :
          (os : List NamespacedName)
          → ((o : NamespacedName)
              → In o os
              → In o (find_outputs_for_subscription i.relations (subscription_name s)))
          → AllRoute (subscription_connector s os m)
      added [] listed = h
      added (o ∷ os) listed =
          All-insert (λ e. Routes Exists e.1) _ _ m
            (subscription-Routes Exists (subscription_name s) (o ∷ os)
              (λ k at. output-Exists n s k (inside n s (inl refl)) (listed k at)))
            h

  bridge_connectors-AllRoute :
      (bs : List Bridge) (m : Connectors)
      → All (λ b. IsKey b.spec.target_tenant i.relations.tenant_subscription_map) bs
      → AllRoute m
      → AllRoute (bridge_connectors bs m)
  unfolding bridge_connectors generate_routing_connector_for_bridge
  bridge_connectors-AllRoute [] m ends h = h
  bridge_connectors-AllRoute (b ∷ bs) m ((subs, found), ends) h =
      bridge_connectors-AllRoute bs _ ends (
        All-insert (λ e. Routes Exists e.1) _ _ m
          (
            (
              root-Exists b.spec.target_tenant subs
                  (lookup-In b.spec.target_tenant subs i.relations.tenant_subscription_map found),
              tt,
            ),
            tt,
          )
          h)

  pub routing-AllRoute : AllRoute (generate_routing_connectors i)
  unfolding generate_routing_connectors
  routing-AllRoute = bridge_connectors-AllRoute i.relations.bridges _ good.bridges (
      subscription_connectors-AllRoute i.relations.subscriptions _ (λ n s at. at)
        (tenant_connectors-AllRoute i.relations.tenants [] tt))
