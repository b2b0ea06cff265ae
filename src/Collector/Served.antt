-- ===== src/Collector/Served.antt =====
-- collector_manager.go and otel_conf_gen.go: the routes of a configuration whose input is built for
-- a collector and passes validation.
mod Tests
use telemetry_controller.Prelude.{
  String, ◌≡◌, ◌≢◌, refl, sym, ap, subst, inl, inr, true, none, some, List, [], ◌∷◌, ◌++◌, map,
  items, All, All-In, All_of, In, IsKey, lookup, lookup-In, Option-cases, Bool-cases, string_eq,
  arith,
}
use telemetry_controller.Api.{NamespacedName, name_instance, output_name, Bridge, Tenant}
use telemetry_controller.Cluster.{Client, Error, Result, ok, err}
use telemetry_controller.Cluster.Writes.{Returns}
use telemetry_controller.Cluster.Succeeded.{returned}
use telemetry_controller.Components.{find_outputs_for_subscription}
use telemetry_controller.Extensions.{Platform}
use telemetry_controller.Connectors.Routed.{Routes}
use telemetry_controller.ConfGen.{OtelColConfigInput}
use telemetry_controller.ConfGen.Service.{names_of_tenant, generate_routing_connectors}
use telemetry_controller.ConfGen.Service.Routed.{IsServed}
use telemetry_controller.ConfGen.Assembly.{assemble_config}
use telemetry_controller.ConfGen.Assembly.Routed.{assemble_config-routed}
use telemetry_controller.Collector.{
  Collector, Gathered, Selected, select_outputs, input_of, build_config_input_for_collector,
}
use telemetry_controller.Collector.Checks.{validate_tenants, validate_subscriptions_and_bridges}
use telemetry_controller.Collector.Checks.Exact.{IsJoined, validate_subscriptions_and_bridges_exact}
use telemetry_controller.Collector.Input.{is_empty, error_or_nil, validate_config_input}
use telemetry_controller.Collector.Fed.{Selects}
use telemetry_controller.Collector.Held.{IsHeld, AreHeld, select_outputs-AreHeld}
use telemetry_controller.Collector.Built.{
  AreListable, IsWellRead, IsGathered, none_selected, build-Returns,
}

-- An input without errors has no error in the second list that is checked.
valid_bridges :
    (i : OtelColConfigInput)
    → validate_config_input i ≡ ok tt
    → validate_subscriptions_and_bridges i.relations.tenants i.relations.subscriptions
        i.relations.bridges
      ≡ []
unfolding validate_config_input error_or_nil
valid_bridges i h = elim (Bool-cases (is_empty i)) [
  | inl empty ↦ absurd (refused (rw empty at h))
  | inr full ↦ from (validate_tenants i.relations.tenants) _ (rw full at h)
]
  where
    refused : {e : Error} → ◌≡◌ {A = Result (Unit {0})} (err e) (ok tt) → ⊥
    refused e = ground (arith, e)

    from : (xs ys : List Error) → error_or_nil (xs ++ ys) ≡ ok tt → ys ≡ []
    from [] [] e = refl
    from [] (y ∷ ys) e = absurd (ground (arith, e))
    from (x ∷ xs) ys e = absurd (ground (arith, e))

module _ (collector : Collector) (tenants : List Tenant) (g : Gathered) (r : Selected)
    (good : IsGathered tenants g) (held : AreHeld r) where
  -- The names of a tenant are those of its status.
  names_of_listed :
      (t : Tenant)
      → In t tenants
      → names_of_tenant (input_of collector tenants g r) t.name ≡ items t.status.subscriptions
  unfolding input_of names_of_tenant lookup
  names_of_listed t here = rw (good.listed t here) refl

  -- A name of a tenant is a key of the map.
  listed-IsKey :
      (name : String) (ts : List Tenant)
      → ((t : Tenant) → In t ts → In t tenants)
      → In name (map (λ t. t.name) ts)
      → IsKey name g.tenant_subscription_map
  listed-IsKey name [] inside at = absurd at
  listed-IsKey name (t ∷ ts) inside (inl e) =
      subst (λ x. IsKey x g.tenant_subscription_map) (sym e)
        (t.status.subscriptions, good.listed t (inside t (inl refl)))
  listed-IsKey name (t ∷ ts) inside (inr at) =
      listed-IsKey name ts (λ u there. inside u (inr there)) at

  found_output :
      (s n : NamespacedName)
      → In n (find_outputs_for_subscription (input_of collector tenants g r).relations s)
      → IsHeld r.outputs n
  unfolding find_outputs_for_subscription input_of lookup
  found_output s n at = elim (Option-cases (lookup s r.subscription_output_map)) [
    | inl missing ↦ absurd (rw missing at at)
    | inr (names, found) ↦
        All-In (IsHeld r.outputs) (items names) n
          (All-In (λ e. All (IsHeld r.outputs) (items e.1)) r.subscription_output_map (s, names)
            held (lookup-In s names r.subscription_output_map found))
          (rw found at at)
  ]

  input_of-IsServed :
      validate_config_input (input_of collector tenants g r) ≡ ok tt
      → IsServed (input_of collector tenants g r)
  unfolding input_of
  input_of-IsServed valid = record {
    named = good.sound.named;
    owned = All_of _ g.subscriptions (λ e at.
        let (t, here, lists) = All-In _ g.subscriptions e good.owned at in
        (t.name, subst (In e.0) (sym (names_of_listed t here)) lists));
    outputs = found_output;
    bridges = All_of _ g.bridges (λ b at.
        let (starts, ends) =
          All-In (IsJoined (map (λ t. t.name) tenants)) g.bridges b
            ((validate_subscriptions_and_bridges_exact tenants g.subscriptions g.bridges).0
              (valid_bridges (input_of collector tenants g r) valid)).2
            at in
        listed-IsKey b.spec.target_tenant tenants (λ t there. there) ends);
  }

module _ {W : Type 0} (c : Client W) (reads : IsWellRead c)
    (outputs : (n : NamespacedName) → Returns (λ o. output_name o ≡ n) (c.get_output n)) where
  build-IsServed :
      (collector : Collector)
      → Returns
          (λ i. validate_config_input i ≡ ok tt → IsServed i)
          (build_config_input_for_collector c collector)
  build-IsServed collector =
      build-Returns c reads collector AreHeld (λ i. validate_config_input i ≡ ok tt → IsServed i)
        (λ ss. select_outputs-AreHeld c outputs ss none_selected tt)
        (λ tenants g r listable good selects held valid.
          input_of-IsServed collector tenants g r good held valid)

  -- If the tenants that are listed have different names and omit the empty lists of their status,
  -- what is read under a name has that name, and a subscription that is read has outputs in its
  -- status, then an input that is built for a collector and that ValidateConfigInput accepts makes a
  -- configuration that has every pipeline that the tables of its routing connectors name.
  pub valid_config-routed :
      (opaque : String → String) (p : Platform) (collector : Collector) (w : W)
      (i : OtelColConfigInput)
      → (build_config_input_for_collector c collector w).0 ≡ ok i
      → validate_config_input i ≡ ok tt
      → All
          (λ e. Routes (λ k. IsKey k (assemble_config opaque p i).0.pipelines) e.1)
          (generate_routing_connectors i)
  valid_config-routed opaque p collector w i built valid =
      assemble_config-routed i
        (returned (λ x. validate_config_input x ≡ ok tt → IsServed x)
          (build_config_input_for_collector c collector w).0 i ((build-IsServed collector).from w)
          built valid)
        opaque p
