-- ===== src/ConfGen/Service/Connected.antt =====
-- otel_conf_gen.go: which routing connectors the configuration has.
use telemetry_controller.Prelude.{
  String, ◌≢◌, refl, sym, ap, subst, inl, inr, List, [], ◌∷◌, In, IsKey, insert-IsKey,
  insert_keeps-IsKey, string_eq, ◌⧺◌,
}
use telemetry_controller.Api.{NamespacedName, Subscription, subscription_name, Tenant, Bridge}
use telemetry_controller.Components.{find_outputs_for_subscription}
use telemetry_controller.Connectors.{
  generate_routing_connector_for_subscriptions_outputs, generate_routing_connector_for_bridge,
}
use telemetry_controller.Connectors.Named.{tenants_connector_name}
use telemetry_controller.ConfGen.{OtelColConfigInput}
use telemetry_controller.ConfGen.Service.{
  Connectors, names_of_tenant, tenant_connector, tenant_connectors, subscription_connector,
  subscription_connectors, bridge_connectors, generate_routing_connectors, routing_subscription,
}

abbrev pub routing_tenant : String → String
routing_tenant name = "routing/tenant_" ⧺ name ⧺ "_subscriptions"

module _ (i : OtelColConfigInput) where
  tenant_connector_keeps :
      (k : String) (t : Tenant) (ns : List NamespacedName) (m : Connectors)
      → IsKey k m
      → IsKey k (tenant_connector i t ns m)
  unfolding tenant_connector
  tenant_connector_keeps k t [] m h = h
  tenant_connector_keeps k t (n ∷ ns) m h = insert_keeps-IsKey _ k _ m h

  tenant_connector-IsKey :
      (t : Tenant) (ns : List NamespacedName) (m : Connectors)
      → ns ≢ []
      → IsKey (routing_tenant t.name) (tenant_connector i t ns m)
  unfolding tenant_connector
  tenant_connector-IsKey t [] m some_name = absurd (some_name refl)
  tenant_connector-IsKey t (n ∷ ns) m some_name =
      subst (λ k. IsKey k (tenant_connector i t (n ∷ ns) m)) (tenants_connector_name _ _ _ _)
        (insert-IsKey _ _ m)

  tenant_connectors_keeps :
      (k : String) (ts : List Tenant) (m : Connectors)
      → IsKey k m
      → IsKey k (tenant_connectors i ts m)
  unfolding tenant_connectors
  tenant_connectors_keeps k [] m h = h
  tenant_connectors_keeps k (t ∷ ts) m h =
      tenant_connectors_keeps k ts _ (tenant_connector_keeps k t (names_of_tenant i t.name) m h)

  tenant_connectors-IsKey :
      (t : Tenant) (ts : List Tenant) (m : Connectors)
      → In t ts
      → names_of_tenant i t.name ≢ []
      → IsKey (routing_tenant t.name) (tenant_connectors i ts m)
  unfolding tenant_connectors
  tenant_connectors-IsKey t [] m h some_name = elim h [ ]
  tenant_connectors-IsKey t (u ∷ ts) m (inl e) some_name = tenant_connectors_keeps _ ts _ (
      subst (λ x. IsKey (routing_tenant t.name) (tenant_connector i x (names_of_tenant i x.name) m))
        e (tenant_connector-IsKey t (names_of_tenant i t.name) m some_name))
  tenant_connectors-IsKey t (u ∷ ts) m (inr h) some_name =
      tenant_connectors-IsKey t ts _ h some_name

  subscription_connector_keeps :
      (k : String) (s : Subscription) (os : List NamespacedName) (m : Connectors)
      → IsKey k m
      → IsKey k (subscription_connector s os m)
  unfolding subscription_connector
  subscription_connector_keeps k s [] m h = h
  subscription_connector_keeps k s (o ∷ os) m h = insert_keeps-IsKey _ k _ m h

  subscription_connectors_keeps :
      (k : String) (ss : List (NamespacedName × Subscription)) (m : Connectors)
      → IsKey k m
      → IsKey k (subscription_connectors i ss m)
  unfolding subscription_connectors
  subscription_connectors_keeps k [] m h = h
  subscription_connectors_keeps k ((n, s) ∷ ss) m h = subscription_connectors_keeps k ss _ (
      subscription_connector_keeps k s
        (find_outputs_for_subscription i.relations (subscription_name s)) m h)

  subscription_connector-IsKey :
      (s : Subscription) (os : List NamespacedName) (m : Connectors)
      → os ≢ []
      → IsKey (routing_subscription (subscription_name s)) (subscription_connector s os m)
  unfolding subscription_connector generate_routing_connector_for_subscriptions_outputs
  subscription_connector-IsKey s [] m some_name = absurd (some_name refl)
  subscription_connector-IsKey s (o ∷ os) m some_name = insert-IsKey _ _ m

  subscription_connectors-IsKey :
      (n : NamespacedName) (s : Subscription) (ss : List (NamespacedName × Subscription))
      (m : Connectors)
      → In (n, s) ss
      → find_outputs_for_subscription i.relations (subscription_name s) ≢ []
      → IsKey (routing_subscription (subscription_name s)) (subscription_connectors i ss m)
  unfolding subscription_connectors
  subscription_connectors-IsKey n s [] m h some_name = elim h [ ]
  subscription_connectors-IsKey n s ((k, u) ∷ ss) m (inl e) some_name =
      subscription_connectors_keeps _ ss _ (
        subst
          (λ x. IsKey (routing_subscription (subscription_name s)) (
            subscription_connector x
              (find_outputs_for_subscription i.relations (subscription_name x)) m))
          (ap (λ x. let y : NamespacedName × Subscription = x in y.1) e)
          (subscription_connector-IsKey s _ m some_name))
  subscription_connectors-IsKey n s ((k, u) ∷ ss) m (inr h) some_name =
      subscription_connectors-IsKey n s ss _ h some_name

  bridge_connectors_keeps :
      (k : String) (bs : List Bridge) (m : Connectors)
      → IsKey k m
      → IsKey k (bridge_connectors bs m)
  unfolding bridge_connectors
  bridge_connectors_keeps k [] m h = h
  bridge_connectors_keeps k (b ∷ bs) m h =
      bridge_connectors_keeps k bs _ (insert_keeps-IsKey _ k _ m h)

  bridge_connectors-IsKey :
      (b : Bridge) (bs : List Bridge) (m : Connectors)
      → In b bs
      → IsKey ("routing/bridge_" ⧺ b.name) (bridge_connectors bs m)
  unfolding bridge_connectors generate_routing_connector_for_bridge
  bridge_connectors-IsKey b [] m h = elim h [ ]
  bridge_connectors-IsKey b (d ∷ bs) m (inl e) =
      subst (λ x. IsKey ("routing/bridge_" ⧺ x) (bridge_connectors (d ∷ bs) m))
        (ap (λ x. let y : Bridge = x in y.name) (sym e))
        (bridge_connectors_keeps _ bs _ (insert-IsKey _ _ m))
  bridge_connectors-IsKey b (d ∷ bs) m (inr h) = bridge_connectors-IsKey b bs _ h

  -- The connectors of tenants with subscriptions, of subscriptions with outputs, and of bridges.
  pub tenant-IsKey :
      (t : Tenant)
      → In t i.relations.tenants
      → names_of_tenant i t.name ≢ []
      → IsKey (routing_tenant t.name) (generate_routing_connectors i)
  unfolding generate_routing_connectors
  tenant-IsKey t h some_name =
      (bridge_connectors_keeps _ i.relations.bridges _ (
        subscription_connectors_keeps _ i.relations.subscriptions _
          (tenant_connectors-IsKey t i.relations.tenants [] h some_name)))

  pub subscription-IsKey :
      (n : NamespacedName) (s : Subscription)
      → In (n, s) i.relations.subscriptions
      → find_outputs_for_subscription i.relations (subscription_name s) ≢ []
      → IsKey (routing_subscription (subscription_name s)) (generate_routing_connectors i)
  unfolding generate_routing_connectors
  subscription-IsKey n s h some_name =
      (bridge_connectors_keeps _ i.relations.bridges _
        (subscription_connectors-IsKey n s i.relations.subscriptions _ h some_name))

  pub bridge-IsKey :
      (b : Bridge)
      → In b i.relations.bridges
      → IsKey ("routing/bridge_" ⧺ b.name) (generate_routing_connectors i)
  unfolding generate_routing_connectors
  bridge-IsKey b h = (bridge_connectors-IsKey b i.relations.bridges _ h)
