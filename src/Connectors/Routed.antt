-- ===== src/Connectors/Routed.antt =====
-- routing_connector.go: which pipelines the tables of the connectors name.
use telemetry_controller.Prelude.{
  String, ◌≡◌, refl, inl, inr, Option, none, some, List, [], ◌∷◌, map, All, All-In, All-append,
  All-insert, In, In-sort_by, lookup, lookup-In, Option-cases, string_eq,
}
use telemetry_controller.Api.{NamespacedName, name_instance, string, RouteConfig, Subscription}
use telemetry_controller.Components.{sort_namespaced_names}
use telemetry_controller.Connectors.{
  RoutingConnector, RoutingConnectorTableItem, populate_routing_connector_table,
  new_routing_connector, conditions_from, see, with_pipeline, subscription_pipeline,
  output_pipeline, generate_routing_connector_for_tenants_subscriptions,
  generate_routing_connector_for_subscriptions_outputs,
}

module _ (P : String → Type 0) where
  -- The pipelines that the table names satisfy `P`.
  abbrev pub Routes : RoutingConnector → Type 0
  Routes rc = All (λ t. All P (let item : RoutingConnectorTableItem = t in item.pipelines)) rc.table

  abbrev Groups : List (String × List String) → Type 0
  Groups seen = All (λ e. All P e.1) seen

  populate-Routes :
      (cs : List (String × List String)) (rc : RoutingConnector)
      → Groups cs
      → Routes rc
      → Routes (populate_routing_connector_table cs rc)
  unfolding populate_routing_connector_table
  populate-Routes [] rc g h = h
  populate-Routes ((c, ps) ∷ cs) rc g h =
      populate-Routes cs _ g.1 (All-append _ rc.table _ h (g.0, tt))

  with_pipeline-All :
      (p : String) (before : Option (List String))
      → P p
      → ((ps : List String) → before ≡ some ps → All P ps)
      → All P (with_pipeline p before)
  unfolding with_pipeline
  with_pipeline-All p none h old = (h, tt)
  with_pipeline-All p (some ps) h old = All-append P ps (p ∷ []) (old ps refl) (h, tt)

  module _ (tenant : String) (subscriptions : List (NamespacedName × Subscription)) where
    -- The pipeline of a subscription that is found satisfies `P`.
    abbrev Finds : NamespacedName → Type 0
    Finds n =
        (s : Subscription)
        → lookup n subscriptions ≡ some s
        → P (subscription_pipeline tenant (record { namespace = s.namespace; name = s.name }))

    see-Groups :
        (n : NamespacedName) (seen : List (String × List String))
        → Finds n
        → Groups seen
        → Groups (see tenant (lookup n subscriptions) seen)
    unfolding see
    see-Groups n seen found g = elim (Option-cases (lookup n subscriptions)) [
      | inl missing ↦ rw missing g
      | inr (s, e) ↦ rw e (
          All-insert (λ x. All P x.1) s.spec.condition _ seen
            (with_pipeline-All _ (lookup s.spec.condition seen) (found s e) (λ ps here.
              All-In (λ x. All P x.1) seen _ g (lookup-In s.spec.condition ps seen here)))
            g)
    ]

    conditions-Groups :
        (ns : List NamespacedName) (seen : List (String × List String))
        → ((n : NamespacedName) → In n ns → Finds n)
        → Groups seen
        → Groups (conditions_from tenant subscriptions ns seen)
    unfolding conditions_from
    conditions-Groups [] seen found g = g
    conditions-Groups (n ∷ ns) seen found g =
        conditions-Groups ns _ (λ k at. found k (inr at)) (see-Groups n seen (found n (inl refl)) g)

    pub tenant-Routes :
        (config : RouteConfig) (ns : List NamespacedName)
        → ((n : NamespacedName) → In n ns → Finds n)
        → Routes
            (generate_routing_connector_for_tenants_subscriptions tenant config ns subscriptions)
    unfolding generate_routing_connector_for_tenants_subscriptions new_routing_connector
        sort_namespaced_names
    tenant-Routes config ns found =
        populate-Routes _ _
          (conditions-Groups (sort_namespaced_names ns) []
            (λ n at. found n (In-sort_by string n ns at)) tt)
          tt

  outputs-All :
      (s : NamespacedName) (ns : List NamespacedName)
      → ((n : NamespacedName) → In n ns → P (output_pipeline s n))
      → All P (map (output_pipeline s) ns)
  outputs-All s [] h = tt
  outputs-All s (n ∷ ns) h = (h n (inl refl), outputs-All s ns (λ k at. h k (inr at)))

  pub subscription-Routes :
      (s : NamespacedName) (ns : List NamespacedName)
      → ((n : NamespacedName) → In n ns → P (output_pipeline s n))
      → Routes (generate_routing_connector_for_subscriptions_outputs s ns)
  unfolding generate_routing_connector_for_subscriptions_outputs new_routing_connector
      sort_namespaced_names
  subscription-Routes s ns h =
      (outputs-All s (sort_namespaced_names ns) (λ n at. h n (In-sort_by string n ns at)), tt)
