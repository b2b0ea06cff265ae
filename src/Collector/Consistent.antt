-- ===== src/Collector/Consistent.antt =====
-- collector_manager.go: what the input of a configuration holds together.
use telemetry_controller.Prelude.{
  String, ◌≡◌, ap, inl, inr, List, [], ◌∷◌, items, All, In, lookup, IsKey, lookup-In, All-In,
  Option-cases, string_eq,
}
use telemetry_controller.Api.{
  NamespacedName, name_instance, Subscription, subscription_name, Tenant,
}
use telemetry_controller.Cluster.{Client, pure, wrapping, ◌>>=◌}
use telemetry_controller.Cluster.Writes.{Post-map, Returns, Returns-bind, Returns-then}
use telemetry_controller.ConfGen.Service.{assemble_pipelines, names_of_tenant}
use telemetry_controller.ConfGen.Service.Parts.{IsDefined}
use telemetry_controller.ConfGen.Service.Defined.{IsConsistent, assemble_pipelines-IsDefined}
use telemetry_controller.Collector.{
  Collector, Gathered, Selected, gather_tenants, select_outputs, input_of, build_from,
  get_tenants_matching_selectors, build_config_input_for_collector,
}
use telemetry_controller.Collector.Gathering.{AreKnown, IsSound, gather_tenants-IsSound}

module _ {W : Type 0} (c : Client W)
    (reads : (n : NamespacedName)
      → Returns (λ s. subscription_name s ≡ n) (c.get_subscription n)) where
  input_of-IsConsistent :
      (collector : Collector) (tenants : List Tenant) (g : Gathered) (r : Selected)
      → IsSound tenants g
      → IsConsistent (input_of collector tenants g r)
  unfolding input_of names_of_tenant lookup
  input_of-IsConsistent collector tenants g r sound = record {
    tenants = sound.owners;
    subscriptions = λ tenant. named tenant;
  }
    where
      held :
          (n : NamespacedName)
          → IsKey n g.subscriptions
          → (s : Subscription) × In (n, s) g.subscriptions × (s.name ≡ n.name)
      held n (s, found) =
          let there = lookup-In n s g.subscriptions found in
          (
            s,
            there,
            ap (λ x. x.name)
                (All-In (λ e. subscription_name e.1 ≡ e.0) g.subscriptions (n, s) sound.named
                  there),
          )

      all_held :
          (ns : List NamespacedName)
          → All (λ n. IsKey n g.subscriptions) ns
          → All (λ n. (s : Subscription) × In (n, s) g.subscriptions × (s.name ≡ n.name)) ns
      all_held [] known = tt
      all_held (n ∷ ns) known = (held n known.0, all_held ns known.1)

      named :
          (tenant : String)
          → All
              (λ n. (s : Subscription) × In (n, s) g.subscriptions × (s.name ≡ n.name))
              (names_of_tenant (input_of collector tenants g r) tenant)
      named tenant = elim (Option-cases (lookup tenant g.tenant_subscription_map)) [
        | inr (names, found) ↦ rw found (
            all_held (items names) (
              All-In (λ e. AreKnown g.subscriptions e.1) g.tenant_subscription_map (tenant, names)
                sound.known (lookup-In tenant names g.tenant_subscription_map found)))
        | inl missing ↦ rw missing tt
      ]

  -- If what is read under the name of a subscription has that name, then the input that is built
  -- for a collector, if one is, is consistent: its map of tenants has only names of tenants that it
  -- holds, and each subscription named there is held, under its name.
  pub build_config_input_for_collector-IsConsistent :
      (collector : Collector) → Returns IsConsistent (build_config_input_for_collector c collector)
  unfolding build_config_input_for_collector build_from
  build_config_input_for_collector-IsConsistent collector =
      Returns-bind IsConsistent
        (wrapping "failed listing tenants"
          (get_tenants_matching_selectors c collector.tenant_selector))
        (build_from c collector)
        (λ tenants.
          Returns-then (IsSound tenants) IsConsistent (gather_tenants c tenants nothing)
            (λ g.
              select_outputs c g.subscriptions none_selected
              >>= (λ r. pure (input_of collector tenants g r)))
            (gather_tenants-IsSound c reads tenants tenants nothing (λ t there. there)
              (record { named = tt; known = tt; owners = tt }))
            (λ g sound.
              Returns-bind IsConsistent (select_outputs c g.subscriptions none_selected)
                (λ r. pure (input_of collector tenants g r))
                (λ r. record { from = λ w. input_of-IsConsistent collector tenants g r sound })))
    where
      nothing : Gathered
      nothing = record { subscriptions = []; bridges = []; tenant_subscription_map = [] }

      none_selected : Selected
      none_selected = record { subscription_output_map = []; outputs = [] }

  -- If what is read under the name of a subscription has that name, then the pipelines assembled
  -- from the input that is built for a collector, if one is, name only processors that are
  -- generated from that input.
  pub built_pipelines-IsDefined :
      (collector : Collector)
      → Returns
          (λ i. All (λ e. IsDefined i e.1) (assemble_pipelines i))
          (build_config_input_for_collector c collector)
  built_pipelines-IsDefined collector = record {
    from = λ w.
        Post-map IsConsistent (λ i. All (λ e. IsDefined i e.1) (assemble_pipelines i))
          assemble_pipelines-IsDefined (build_config_input_for_collector c collector w).0
          ((build_config_input_for_collector-IsConsistent collector).from w);
  }
