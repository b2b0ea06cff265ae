-- ===== src/Collector/Reads.antt =====
-- collector_manager.go: gathering the resources of a collector only reads.
use telemetry_controller.Prelude.{
  String, Option, none, some, List, [], ◌∷◌, insert, string_eq, ◌==◌,
}
use telemetry_controller.Api.{
  NamespacedName, name_instance, LabelSelector, state_failed, Output, OutputAuth, Subscription,
  subscription_name, Bridge, Tenant,
}
use telemetry_controller.Cluster.{Result, ok, err, Client, fail, tenant_failed, ignore_not_found}
use telemetry_controller.Cluster.Writes.{
  Keeps, Allows, Keeps-pure, Keeps-fail, Keeps-bind, Keeps-wrapping, Keeps-ignore_not_found,
  Keeps-if,
}
use telemetry_controller.Components.Secrets.{query_output_secret_with_data_keeps}
use telemetry_controller.Collector.{
  Collector, Subscriptions, Gathered, Selected, get_tenants_matching_selectors, get_subscriptions,
  get_bridges, gather_tenant, unless_failed, gather_tenants, secret_of_output, get_outputs,
  select_outputs, build_from, build_config_input_for_collector,
}

module _ {W : Type 0} (c : Client W) {P : W → Type 0} {may_output : Output → Type 0}
    {may_subscription : Subscription → Type 0} {may_bridge : Bridge → Type 0}
    {may_tenant : Tenant → Type 0}
    (allows : Allows c P may_output may_subscription may_bridge may_tenant) where
  tenants_keep : (s : LabelSelector) → Keeps P (get_tenants_matching_selectors c s)
  unfolding get_tenants_matching_selectors
  tenants_keep s = selected (c.as_selector s)
    where
      selected :
          (r : Result LabelSelector)
          → Keeps P (elim r [ err e ↦ fail e | ok l ↦ ignore_not_found c (c.list_tenants l) ])
      selected (err e) = Keeps-fail e
      selected (ok l) = Keeps-ignore_not_found c _ (allows.list_tenants l)

  get_subscriptions_keeps :
      (tenant : String) (ns : List NamespacedName) (m : Subscriptions)
      → Keeps P (get_subscriptions c tenant ns m)
  unfolding get_subscriptions
  get_subscriptions_keeps tenant [] m = Keeps-pure m
  get_subscriptions_keeps tenant (n ∷ ns) m =
      Keeps-bind _ _ (Keeps-wrapping _ _ (allows.get_subscription n))
        (λ s. get_subscriptions_keeps tenant ns (insert n s m))

  get_bridges_keeps : (tenant : String) (ns : List String) → Keeps P (get_bridges c tenant ns)
  unfolding get_bridges
  get_bridges_keeps tenant [] = Keeps-pure []
  get_bridges_keeps tenant (n ∷ ns) =
      Keeps-bind _ _ (Keeps-wrapping _ _ (allows.get_bridge n))
        (λ b. Keeps-bind _ _ (get_bridges_keeps tenant ns) (λ rest. Keeps-pure (b ∷ rest)))

  gather_tenant_keeps : (t : Tenant) (g : Gathered) → Keeps P (gather_tenant c t g)
  unfolding gather_tenant
  gather_tenant_keeps t g =
      Keeps-bind _ _ (get_subscriptions_keeps t.name _ g.subscriptions)
        (λ ss. Keeps-bind _ _ (get_bridges_keeps t.name _) (λ bs. Keeps-pure _))

  gather_tenants_keeps : (ts : List Tenant) (g : Gathered) → Keeps P (gather_tenants c ts g)
  unfolding gather_tenants unless_failed
  gather_tenants_keeps [] g = Keeps-pure g
  gather_tenants_keeps (t ∷ ts) g =
      Keeps-bind _ _
        (Keeps-if (t.status.state == state_failed) (fail tenant_failed) (gather_tenant c t g)
          (λ _. Keeps-fail tenant_failed) (λ _. gather_tenant_keeps t g))
        (gather_tenants_keeps ts)

  secret_of_output_keeps : (o : Output) (a : Option OutputAuth) → Keeps P (secret_of_output c o a)
  unfolding secret_of_output
  secret_of_output_keeps o none = Keeps-pure _
  secret_of_output_keeps o (some a) =
      Keeps-wrapping _ _ (query_output_secret_with_data_keeps c allows.get_secret a)

  get_outputs_keeps : (s : NamespacedName) (ns : List NamespacedName) → Keeps P (get_outputs c s ns)
  unfolding get_outputs
  get_outputs_keeps s [] = Keeps-pure []
  get_outputs_keeps s (n ∷ ns) = Keeps-bind _ _ (Keeps-wrapping _ _ (allows.get_output n)) (λ o.
      Keeps-bind _ _ (secret_of_output_keeps o o.spec.authentication)
        (λ secret. Keeps-bind _ _ (get_outputs_keeps s ns) (λ rest. Keeps-pure _)))

  select_outputs_keeps : (ss : Subscriptions) (r : Selected) → Keeps P (select_outputs c ss r)
  unfolding select_outputs
  select_outputs_keeps [] r = Keeps-pure r
  select_outputs_keeps ((n, s) ∷ ss) r =
      Keeps-bind _ _ (get_outputs_keeps (subscription_name s) _) (λ os. select_outputs_keeps ss _)

  pub build_config_input_keeps : (k : Collector) → Keeps P (build_config_input_for_collector c k)
  unfolding build_config_input_for_collector build_from
  build_config_input_keeps k =
      Keeps-bind _ _ (Keeps-wrapping _ _ (tenants_keep k.tenant_selector)) (λ ts.
        Keeps-bind _ _ (gather_tenants_keeps ts _)
          (λ g. Keeps-bind _ _ (select_outputs_keeps g.subscriptions _) (λ r. Keeps-pure _)))
