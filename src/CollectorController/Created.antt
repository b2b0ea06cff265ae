-- ===== src/CollectorController/Created.antt =====
-- handleCollectorCreation: what has been done when it succeeds.
use telemetry_controller.Prelude.{
  String, ◌≡◌, sym, ap, subst, inl, inr, Option, none, some, List, ◌⧺◌, map, Option-cases, arith,
}
use telemetry_controller.Api.{NamespacedName}
use telemetry_controller.Utils.{normalize_string_slice}
use telemetry_controller.Cluster.{Error, Result, ok, err, Exec, pure, wrapping, ◌>>=◌}
use telemetry_controller.Cluster.Succeeded.{wrapping-ok, then-ok, returned}
use telemetry_controller.Components.Secrets.{Result-cases}
use telemetry_controller.ConfGen.{OtelColConfigInput}
use telemetry_controller.ConfGen.Assembly.{OtelConfig, assemble_config}
use telemetry_controller.Collector.{Collector, build_config_input_for_collector}
use telemetry_controller.Collector.Credentials.{auth_secret}
use telemetry_controller.Collector.Input.{validate_config_input}
use telemetry_controller.Collector.Rbac.{cluster_role, service_account, cluster_role_binding}
use telemetry_controller.CollectorController.Objects.{
  Operator, Desired, role, account, binding, secret, agent,
}
use telemetry_controller.CollectorController.Granted.{IsReconciled, reconcile_rbac-HasRights}
use telemetry_controller.CollectorController.Accounts.{reconcile_rbac-IsAccount}
use telemetry_controller.CollectorController.Creation.{
  lift, own, reconcile_rbac, valid, rights, desired, deploy, apply, checked, configured,
  handle_collector_creation,
}

module _ {W : Type 0} (o : Operator W) (k : Collector) where
  -- The roles, the account and the secret of the collector are reconciled, and its
  -- OpenTelemetryCollector: with the valid configuration of the valid input that was built, for its
  -- tenants and outputs, under the account. The names are those of these tenants.
  pub record IsCreated (w : W) (names : List String) : Type 0 where
    pub input : OtelColConfigInput
    pub config : OtelConfig
    pub args : List (String × String)
    pub built : (build_config_input_for_collector o.client k w).0 ≡ ok input
    pub accepted : validate_config_input input ≡ ok tt
    pub assembled : assemble_config o.opaque o.platform input ≡ (config, some args)
    pub validated : o.validate_assembled_config config ≡ ok tt
    pub ruled : IsReconciled o k (role (cluster_role k))
    pub accounted : IsReconciled o k (account (service_account k))
    pub bound : IsReconciled o k (binding (cluster_role_binding k))
    pub kept : IsReconciled o k (secret (auth_secret k input.relations.outputs_with_secret_data))
    pub deployed : IsReconciled o k (
        agent (record {
          collector = k;
          otel_config = config;
          additional_args = args;
          tenants = input.relations.tenants;
          outputs = input.relations.outputs_with_secret_data;
          sa_name = let a = service_account k in a.name;
        }))
    pub named : names ≡ normalize_string_slice (map (λ t. t.name) input.relations.tenants)

  module _ (input : OtelColConfigInput) (config : OtelConfig) (args : List (String × String)) where
    -- What follows the rights, if it succeeds.
    record IsDeployed (sa : NamespacedName) (names : List String) : Type 0 where
      pub kept : IsReconciled o k (secret (auth_secret k input.relations.outputs_with_secret_data))
      pub deployed : IsReconciled o k (desired o k input config args sa)
      pub named : names ≡ normalize_string_slice (map (λ t. t.name) input.relations.tenants)

    deploy-IsDeployed :
        (sa : NamespacedName) (w : W) (names : List String)
        → (deploy o k input config args sa w).0 ≡ ok names
        → IsDeployed sa names
    unfolding deploy
    deploy-IsDeployed sa w names h =
        let (_, _, h1) = then-ok (own o k "auth secret" s) after_secret w names h in
        let w1 = (own o k "auth secret" s w).1 in
        let (_, kept, h2) =
          then-ok (wrapping secret_text (o.reconcile_resource s)) own_agent w1 names h1 in
        let w2 = (wrapping secret_text (o.reconcile_resource s) w1).1 in
        let (_, _, h3) = then-ok (own o k "OpenTelemetryCollector" d) after_agent w2 names h2 in
        let w3 = (own o k "OpenTelemetryCollector" d w2).1 in
        let (_, made, h4) =
          then-ok (wrapping agent_text (o.reconcile_resource d)) listed w3 names h3 in
        record {
          kept = (w1, wrapping-ok secret_text (o.reconcile_resource s) w1 tt kept);
          deployed = (w3, wrapping-ok agent_text (o.reconcile_resource d) w3 tt made);
          named = sym (ap (λ r. elim r [ ok x ↦ x | err e ↦ names ]) h4);
        }
      where
        s : Desired
        s = secret (auth_secret k input.relations.outputs_with_secret_data)

        d : Desired
        d = desired o k input config args sa

        secret_text : String
        secret_text = "failed reconciling auth secret for collector " ⧺ k.name

        agent_text : String
        agent_text = "failed reconciling OpenTelemetryCollector for collector " ⧺ k.name

        listed : Unit {0} → Exec W (List String)
        listed _ = pure (normalize_string_slice (map (λ t. t.name) input.relations.tenants))

        after_agent : Unit {0} → Exec W (List String)
        after_agent _ = wrapping agent_text (o.reconcile_resource d) >>= listed

        own_agent : Unit {0} → Exec W (List String)
        own_agent _ = own o k "OpenTelemetryCollector" d >>= after_agent

        after_secret : Unit {0} → Exec W (List String)
        after_secret _ = wrapping secret_text (o.reconcile_resource s) >>= own_agent

    apply-IsCreated :
        (w v : W) (names : List String)
        → (build_config_input_for_collector o.client k w).0 ≡ ok input
        → validate_config_input input ≡ ok tt
        → assemble_config o.opaque o.platform input ≡ (config, some args)
        → (apply o k input config args v).0 ≡ ok names
        → IsCreated w names
    unfolding apply valid rights desired
    apply-IsCreated w v names built accepted assembled h =
        let check : Exec W (Unit {0}) = valid o k config in
        let (_, passed, h1) =
          then-ok check (λ _. rights o k >>= deploy o k input config args) v names h in
        let v1 = (check v).1 in
        let (sa, righted, h2) = then-ok (rights o k) (deploy o k input config args) v1 names h1 in
        let made = wrapping-ok _ (reconcile_rbac o k) v1 sa righted in
        let has = reconcile_rbac-HasRights o k v1 sa made in
        let done = deploy-IsDeployed sa (rights o k v1).1 names h2 in
        let account_name =
          returned (λ n. let m : NamespacedName = n in m.name ≡ (service_account k).name)
            (reconcile_rbac o k v1).0 sa ((reconcile_rbac-IsAccount o k).from v1) made in
        record {
          input = input;
          config = config;
          args = args;
          built = built;
          accepted = accepted;
          assembled = assembled;
          validated = wrapping-ok _ (lift {W = W} (o.validate_assembled_config config)) v tt passed;
          ruled = has.ruled;
          accounted = has.accounted;
          bound = has.bound;
          kept = done.kept;
          deployed =
              subst
                (λ n. IsReconciled o k (
                  agent (record {
                    collector = k;
                    otel_config = config;
                    additional_args = args;
                    tenants = input.relations.tenants;
                    outputs = input.relations.outputs_with_secret_data;
                    sa_name = n;
                  })))
                account_name done.deployed;
          named = done.named;
        }

  pub checked-ok :
      (input : OtelColConfigInput) → checked o k input ≡ ok tt → validate_config_input input ≡ ok tt
  unfolding checked
  checked-ok input h = elim (Result-cases (validate_config_input input)) [
    | inl (_, e) ↦ e
    | inr (e, f) ↦ ground (arith, h, f)
  ]

  pub creation-IsCreated :
      (w : W) (names : List String)
      → (handle_collector_creation o k w).0 ≡ some (ok names)
      → IsCreated w names
  unfolding handle_collector_creation configured
  creation-IsCreated w names h = elim (Result-cases (wrapping text build w).0) [
    | inr (e, f) ↦ absurd (refused e (rw (f, handle_collector_creation) at h))
    | inl (input, f) ↦ elim (Result-cases (checked o k input)) [
      | inr (e, g) ↦ absurd (refused e (rw (f, g, handle_collector_creation) at h))
      | inl (_, g) ↦
          from input (wrapping-ok text build w input f) (checked-ok input g)
            (wrapping text build w).1 (rw (f, g, handle_collector_creation) at h)
    ]
  ]
    where
      text : String
      text = "failed to build config input for collector " ⧺ k.name

      build : Exec W OtelColConfigInput
      build = build_config_input_for_collector o.client k

      refused :
          (e : Error) → ◌≡◌ {A = Option (Result (List String))} (some (err e)) (some (ok names)) → ⊥
      refused e q = ground (arith, q)

      from :
          (input : OtelColConfigInput)
          → (build w).0 ≡ ok input
          → validate_config_input input ≡ ok tt
          → (v : W) → (configured o k input v).0 ≡ some (ok names)
          → IsCreated w names
      from input built accepted v q =
          let assembled = assemble_config o.opaque o.platform input in
          elim (Option-cases assembled.1) [
            | inl e ↦ ground (arith, rw (e, configured) at q)
            | inr (args, e) ↦
                apply-IsCreated input assembled.0 args w v names built accepted
                  (ap (λ x. (assembled.0, x)) e) (applied (rw (e, configured) at q))
          ]
        where
          applied :
              {r : Result (List String)}
              → ◌≡◌ {A = Option (Result (List String))} (some r) (some (ok names))
              → r ≡ ok names
          applied {r} q = ap (λ x. elim x [ none ↦ r | some y ↦ y ]) q
