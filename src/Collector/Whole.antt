-- ===== src/Collector/Whole.antt =====
-- collector_manager.go and otel_conf_gen.go: the configuration that is assembled from the input
-- that is built for a collector.
use telemetry_controller.Prelude.{
  String, ◌≡◌, ◌≢◌, refl, subst, inl, inr, Option, none, some, List, [], ◌∷◌, items, All-In, All_of,
  In, IsKey, lookup, lookup-In, Option-cases, string_eq, arith,
}
use telemetry_controller.Api.{
  NamespacedName, name_instance, Subscription, subscription_name, Tenant,
}
use telemetry_controller.Cluster.{Client, Result, ok, err}
use telemetry_controller.Cluster.Writes.{Post, Post-map, Returns}
use telemetry_controller.Components.{find_outputs_for_subscription}
use telemetry_controller.Extensions.{Platform}
use telemetry_controller.ConfGen.Service.{names_of_tenant}
use telemetry_controller.ConfGen.Assembly.{assemble_config}
use telemetry_controller.ConfGen.Assembly.Resolved.{IsResolved}
use telemetry_controller.ConfGen.Assembly.Closed.{IsClosed, assemble_config-IsClosed}
use telemetry_controller.Collector.{
  Collector, Gathered, Selected, select_outputs, input_of, build_config_input_for_collector,
}
use telemetry_controller.Collector.Gathering.{AreKnown}
use telemetry_controller.Collector.Fed.{Selects}
use telemetry_controller.Collector.Built.{
  AreListable, IsWellRead, IsGathered, none_selected, build-Returns,
}

items-IsOmitted : {A : Type 0} → (xs : Option (List A)) → xs ≢ none → xs ≢ some [] → items xs ≢ []
items-IsOmitted none h k = absurd (h refl)
items-IsOmitted (some []) h k = absurd (k refl)
items-IsOmitted (some (x ∷ xs)) h k = λ e. ground (arith, e)

module _ (collector : Collector) (tenants : List Tenant) (listable : AreListable tenants) where
  module _ (g : Gathered) (r : Selected) (good : IsGathered tenants g)
      (selects : Selects g.subscriptions none_selected r) where
    outputs_of :
        (n : NamespacedName)
        → IsKey n r.subscription_output_map
        → find_outputs_for_subscription (input_of collector tenants g r).relations n ≢ []
    unfolding find_outputs_for_subscription input_of
    outputs_of n (v, found) = rw found (
        All-In (λ e. items e.1 ≢ []) r.subscription_output_map (n, v) selects.filled
          (lookup-In n v r.subscription_output_map found))

    held :
        (n : NamespacedName)
        → IsKey n g.subscriptions
        → (s : Subscription) × In (n, s) g.subscriptions
          × (subscription_name s ≡ n)
          × (find_outputs_for_subscription (input_of collector tenants g r).relations n ≢ [])
    held n (s, found) =
        let there = lookup-In n s g.subscriptions found in
        let same =
          All-In (λ e. subscription_name e.1 ≡ e.0) g.subscriptions (n, s) good.sound.named there in
        (
          s,
          there,
          same,
          outputs_of n (
              subst (λ x. IsKey x r.subscription_output_map) same
                (All-In (λ e. IsKey (subscription_name e.1) r.subscription_output_map)
                  g.subscriptions (n, s) selects.found there)),
        )

    input_of-IsResolved : IsResolved (input_of collector tenants g r)
    unfolding input_of names_of_tenant lookup
    input_of-IsResolved = record {
      distinct = listable.distinct;
      known = good.sound.owners;
      listed = λ t here some_list.
          rw (good.listed t here)
            (items-IsOmitted t.status.subscriptions some_list (listable.subscriptions t here));
      selected = listable.namespaces;
      subscribed = λ tenant. elim (Option-cases (lookup tenant g.tenant_subscription_map)) [
        | inr (names, found) ↦ rw found (
            All_of _ (items names) (λ n here. held n (
              All-In _ (items names) n
                (All-In (λ e. AreKnown g.subscriptions e.1) g.tenant_subscription_map
                  (tenant, names) good.sound.known
                  (lookup-In tenant names g.tenant_subscription_map found))
                here)))
        | inl missing ↦ rw missing tt
      ];
    }

module _ {W : Type 0} (c : Client W) (reads : IsWellRead c) where
  -- If the tenants that are listed have different names and omit the empty lists of their status,
  -- and what is read under the name of a subscription has that name, and outputs in its status,
  -- then the resources in the input that is built for a collector, if one is, name only each other.
  pub build_config_input_for_collector-IsResolved :
      (collector : Collector) → Returns IsResolved (build_config_input_for_collector c collector)
  build_config_input_for_collector-IsResolved collector =
      build-Returns c reads collector (λ r. Unit {0}) IsResolved
        (λ ss. record { from = λ w. anything (select_outputs c ss none_selected w).0 })
        (λ tenants g r listable good selects q.
          input_of-IsResolved collector tenants listable g r good selects)
    where
      anything : (result : Result Selected) → Post (λ r. Unit {0}) result
      anything (ok r) = tt
      anything (err e) = tt

  -- If the tenants that are listed have different names and omit the empty lists of their status,
  -- and what is read under the name of a subscription has that name, and outputs in its status,
  -- then the configuration that AssembleConfig makes of the input that is built for a collector, if
  -- one is, is closed: every receiver, processor and exporter that a pipeline names is there, or is
  -- a connector that is there, and so is every extension that the service names.
  pub built_config-IsClosed :
      (opaque : String → String) (p : Platform) (collector : Collector)
      → Returns
          (λ i. IsClosed (assemble_config opaque p i).0)
          (build_config_input_for_collector c collector)
  built_config-IsClosed opaque p collector = record {
    from = λ w.
        Post-map IsResolved (λ i. IsClosed (assemble_config opaque p i).0)
          (assemble_config-IsClosed opaque p) (build_config_input_for_collector c collector w).0
          ((build_config_input_for_collector-IsResolved collector).from w);
  }
