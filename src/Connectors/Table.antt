-- ===== src/Connectors/Table.antt =====
-- routing_connector.go: the table of a tenant's connector, as a relation between conditions and
-- pipelines.
use telemetry_controller.Prelude.{
  String, ◌≡◌, ◌↔◌, ◌⊎◌, refl, sym, ap, ◌∙◌, subst, inl, inr, Option, none, some, List, [], ◌∷◌,
  ◌++◌, In, In-append_left, In-append_right, In-append_cases, In-sort_by, sort_by-In, lookup,
  string_eq, arith,
}
use telemetry_controller.Api.{NamespacedName, name_instance, string, RouteConfig, Subscription}
use telemetry_controller.Components.{sort_namespaced_names}
use telemetry_controller.Connectors.{
  RoutingConnector, RoutingConnectorTableItem, populate_routing_connector_table,
  new_routing_connector, conditions_from, see, subscription_pipeline,
  generate_routing_connector_for_tenants_subscriptions,
}
use telemetry_controller.Connectors.Grouped.{Seen, IsGrouped, with-IsGrouped}

-- An item of the table has the condition, and the pipeline.
abbrev pub IsRouted : RoutingConnector → String → String → Type 0
IsRouted rc condition pipeline =
    (t : RoutingConnectorTableItem) × In t rc.table
    × (t.condition ≡ condition)
    × In pipeline t.pipelines

module _ (c p : String) where
  populate-IsRouted :
      (seen : Seen) (rc : RoutingConnector)
      → IsRouted (populate_routing_connector_table seen rc) c p
        ↔ (IsRouted rc c p ⊎ IsGrouped seen c p)
  unfolding populate_routing_connector_table
  populate-IsRouted [] rc =
      (λ h. inl h, λ h. elim h [ inl old ↦ old | inr (ps, at, q) ↦ absurd at ])
  populate-IsRouted ((d, qs) ∷ seen) rc =
      let rest = populate-IsRouted seen (record rc { table = rc.table ++ (item ∷ []) }) in
      (
        λ h. elim (rest.0 h) [
          | inl (t, at, same, q) ↦ elim (In-append_cases t rc.table (item ∷ []) at) [
            | inl old ↦ inl (t, old, same, q)
            | inr new ↦ elim new [
              | inl e ↦ inr (
                qs,
                inl (
                    ap (λ x. (x, qs))
                      (sym same
                        ∙ ap (λ x. let y : RoutingConnectorTableItem = x in y.condition) e)),
                subst (λ x. In p (let y : RoutingConnectorTableItem = x in y.pipelines)) e q,
              )
              | inr none_left ↦ absurd none_left
            ]
          ]
          | inr (ps, at, q) ↦ inr (ps, inr at, q)
        ],
        λ h. rest.1 (elim h [
          | inl (t, at, same, q) ↦ inl (t, In-append_left t rc.table (item ∷ []) at, same, q)
          | inr (ps, at, q) ↦ elim at [
            | inl e ↦ inl (
              item,
              In-append_right item rc.table (item ∷ []) (inl refl),
              ap (λ x. let y : String × List String = x in y.0) (sym e),
              subst (λ x. In p (let y : String × List String = x in y.1)) e q,
            )
            | inr later ↦ inr (ps, later, q)
          ]
        ]),
      )
    where
      item : RoutingConnectorTableItem
      item = record { condition = d; pipelines = qs }

  module _ (tenant : String) (subscriptions : List (NamespacedName × Subscription)) where
    -- The subscription of a name is there, and has the condition and the pipeline.
    abbrev pub IsSubscribed : NamespacedName → Type 0
    IsSubscribed n =
        (s : Subscription) × (lookup n subscriptions ≡ some s)
        × (let spec = s.spec in spec.condition ≡ c)
        × (p ≡ subscription_pipeline tenant (record { namespace = s.namespace; name = s.name }))

    see-IsGrouped :
        (n : NamespacedName) (seen : Seen)
        → IsGrouped (see tenant (lookup n subscriptions) seen) c p
          ↔ (IsGrouped seen c p ⊎ IsSubscribed n)
    unfolding see
    see-IsGrouped n seen = from (lookup n subscriptions) refl
      where
        from :
            (found : Option Subscription)
            → lookup n subscriptions ≡ found
            → IsGrouped (see tenant found seen) c p ↔ (IsGrouped seen c p ⊎ IsSubscribed n)
        from none e = (
          λ h. inl h,
          λ h. elim h [
            | inl old ↦ old
            | inr (s, found, rest, more) ↦ absurd (ground (arith, e, found))
          ],
        )
        from (some s) e =
            let new =
              with-IsGrouped c p s.spec.condition
                (subscription_pipeline tenant (record { namespace = s.namespace; name = s.name }))
                seen in
            (
              λ h. elim (new.0 h) [ inl old ↦ inl old | inr (same, q) ↦ inr (s, e, same, q) ],
              λ h. elim h [
                | inl old ↦ new.1 (inl old)
                | inr (u, found, same, q) ↦ new.1 (
                    inr (
                      subst (λ x. (let spec = x.spec in spec.condition) ≡ c) (equal u found) same,
                      subst
                          (λ x.
                            p
                            ≡ subscription_pipeline tenant
                                (record { namespace = x.namespace; name = x.name }))
                          (equal u found) q,
                    ))
              ],
            )
          where
            equal : (u : Subscription) → lookup n subscriptions ≡ some u → u ≡ s
            equal u found = ap (λ x. elim x [ none ↦ u | some y ↦ y ]) (sym found ∙ e)

    conditions-IsGrouped :
        (ns : List NamespacedName) (seen : Seen)
        → IsGrouped (conditions_from tenant subscriptions ns seen) c p
          ↔ (IsGrouped seen c p ⊎ ((n : NamespacedName) × In n ns × IsSubscribed n))
    unfolding conditions_from
    conditions-IsGrouped [] seen =
        (λ h. inl h, λ h. elim h [ inl old ↦ old | inr (n, at, rest) ↦ absurd at ])
    conditions-IsGrouped (k ∷ ns) seen =
        let rest = conditions-IsGrouped ns (see tenant (lookup k subscriptions) seen) in
        let here = see-IsGrouped k seen in
        (
          λ h. elim (rest.0 h) [
            | inl x ↦ elim (here.0 x) [ inl old ↦ inl old | inr new ↦ inr (k, inl refl, new) ]
            | inr (n, at, new) ↦ inr (n, inr at, new)
          ],
          λ h. rest.1 (elim h [
            | inl old ↦ inl (here.1 (inl old))
            | inr (n, at, new) ↦ elim at [
              | inl e ↦ inl (here.1 (inr (subst IsSubscribed e new)))
              | inr later ↦ inr (n, later, new)
            ]
          ]),
        )

    -- The table of a tenant's connector has a pipeline under a condition exactly if one of the
    -- tenant's names is that of a subscription that is there, which has that condition and that
    -- pipeline: none is lost, also where subscriptions share a condition.
    pub tenant_table_exact :
        (config : RouteConfig) (ns : List NamespacedName)
        → IsRouted
            (generate_routing_connector_for_tenants_subscriptions tenant config ns subscriptions)
            c
            p
          ↔ ((n : NamespacedName) × In n ns × IsSubscribed n)
    unfolding generate_routing_connector_for_tenants_subscriptions new_routing_connector
        sort_namespaced_names
    tenant_table_exact config ns =
        let table = populate-IsRouted _ _ in
        let seen = conditions-IsGrouped (sort_namespaced_names ns) [] in
        (
          λ h. elim (table.0 h) [
            | inl (t, at, rest, more) ↦ absurd at
            | inr group ↦ elim (seen.0 group) [
              | inl (ps, at, q) ↦ absurd at
              | inr (n, at, new) ↦ (n, In-sort_by string n ns at, new)
            ]
          ],
          λ h.
              let (n, at, new) = h in
              table.1 (inr (seen.1 (inr (n, sort_by-In string n ns at, new)))),
        )
