-- ===== src/CollectorController/Writes.antt =====
-- Which objects and statuses a reconciliation of a collector writes, whatever happens.
use telemetry_controller.Prelude.{String, ◌≡◌, refl, ◌⊎◌, some, List, []}
use telemetry_controller.Api.{NamespacedName, state_ready, state_failed}
use telemetry_controller.Utils.{normalize_string_slice}
use telemetry_controller.Cluster.{Result, ok, err, ◌>>=◌}
use telemetry_controller.Cluster.Writes.{
  Keeps, Allows, Post, Returns-wrapping, Keeps-bind, Keeps-bind-result, Keeps-pure, Keeps-wrapping,
}
use telemetry_controller.ConfGen.{OtelColConfigInput}
use telemetry_controller.ConfGen.Assembly.{OtelConfig, assemble_config}
use telemetry_controller.Collector.{Collector, build_config_input_for_collector}
use telemetry_controller.Collector.Credentials.{auth_secret}
use telemetry_controller.Collector.Input.{validate_config_input}
use telemetry_controller.Collector.Rbac.{cluster_role, service_account, cluster_role_binding}
use telemetry_controller.CollectorController.Accounts.{reconcile_rbac-IsAccount}
use telemetry_controller.CollectorController.Resource.{
  CollectorStatus, CollectorResource, set_defaults,
}
use telemetry_controller.CollectorController.Objects.{
  Operator, OtelCollector, Desired, role, account, binding, secret, agent,
}
use telemetry_controller.CollectorController.Creation.{
  lift, own, reconcile_cluster_role, reconcile_service_account, reconcile_cluster_role_binding,
  reconcile_rbac, valid, rights, desired, deploy, apply,
}

-- A status is ready, without problems and with the names of the tenants in order, or failed.
abbrev pub MayStatus : CollectorStatus → Type 0
MayStatus s =
    ((s.state ≡ state_ready)
      × (s.problems ≡ some [])
      × (s.problems_count ≡ 0)
      × ((names : List String) × (s.tenants ≡ some (normalize_string_slice names))))
    ⊎ (s.state ≡ state_failed)

module _ {W : Type 0} (o : Operator W) where
  -- The input is built for the collector, and valid.
  abbrev pub IsValidFor : Collector → OtelColConfigInput → Type 0
  IsValidFor k input =
      (v : W) × ((build_config_input_for_collector o.client k v).0 ≡ ok input)
      × (validate_config_input input ≡ ok tt)

  -- All is of one such input: the configuration, which is valid itself, with its arguments, the
  -- tenants and the outputs. The account is the one that is made for the collector.
  abbrev pub MayAgent : OtelCollector → Type 0
  MayAgent a =
      (input : OtelColConfigInput) × IsValidFor a.collector input
      × (assemble_config o.opaque o.platform input ≡ (a.otel_config, some a.additional_args))
      × (o.validate_assembled_config a.otel_config ≡ ok tt)
      × (a.tenants ≡ input.relations.tenants)
      × (a.outputs ≡ input.relations.outputs_with_secret_data)
      × (a.sa_name ≡ (service_account a.collector).name)

  abbrev pub MayDesired : Collector → Desired → Type 0
  MayDesired k (role r) = r ≡ cluster_role k
  MayDesired k (account a) = a ≡ service_account k
  MayDesired k (binding b) = b ≡ cluster_role_binding k
  MayDesired k (secret s) =
      (input : OtelColConfigInput) × IsValidFor k input
      × (s ≡ auth_secret k input.relations.outputs_with_secret_data)
  MayDesired k (agent a) = (a.collector ≡ k) × MayAgent a

  -- The collector is one that is read under the name, with its defaults.
  abbrev pub IsReadAs : String → Collector → Type 0
  IsReadAs name k =
      (r : CollectorResource) × (w : W) × ((o.get_collector name w).0 ≡ ok r)
      × (k ≡ set_defaults r.name r.spec)

  -- The reads keep `P`, and so do the writes that may be made for the collector of that name.
  pub record Permits (name : String) (P : W → Type 0) : Type 0 where
    pub client : Allows o.client P (λ _. ⊥) (λ _. ⊥) (λ _. ⊥) (λ _. ⊥)
    pub get_collector : Keeps P (o.get_collector name)
    pub update_collector : (s : CollectorStatus) → MayStatus s → Keeps P (o.update_collector name s)
    pub reconcile_resource :
        (k : Collector) (d : Desired)
        → IsReadAs name k
        → MayDesired k d
        → Keeps P (o.reconcile_resource d)

  module _ {name : String} {P : W → Type 0} (permits : Permits name P) where
    lift_keeps : {A : Type 0} (r : Result A) → Keeps P (lift {W = W} r)
    lift_keeps r = record { at = λ w h. h }

    module _ (k : Collector) (known : IsReadAs name k) where
      own_keeps : (what : String) (d : Desired) → Keeps P (own o k what d)
      unfolding own
      own_keeps what d = Keeps-wrapping _ _ (lift_keeps _)

      reconcile_rbac_keeps : Keeps P (reconcile_rbac o k)
      unfolding reconcile_rbac reconcile_cluster_role reconcile_service_account
          reconcile_cluster_role_binding
      reconcile_rbac_keeps = record { at = λ w h. bound.at _ (made.at _ (ruled.at w h)) }
        where
          ruled : Keeps P (reconcile_cluster_role o k)
          ruled = Keeps-bind _ _ (own_keeps "cluster role" (role (cluster_role k))) (λ _.
              Keeps-wrapping _ _ (permits.reconcile_resource k (role (cluster_role k)) known refl))

          made : Keeps P (reconcile_service_account o k)
          made = Keeps-bind _ _ (lift_keeps _) (λ _.
              Keeps-bind _ _ (permits.reconcile_resource k (account (service_account k)) known refl)
                (λ _. Keeps-pure _))

          bound : Keeps P (reconcile_cluster_role_binding o k)
          bound =
              Keeps-bind _ _ (own_keeps "cluster role binding" (binding (cluster_role_binding k)))
                (λ _.
                  Keeps-wrapping _ _
                    (permits.reconcile_resource k (binding (cluster_role_binding k)) known refl))

      valid-Post : (r : Result (Unit {0})) → Post (λ _. r ≡ ok tt) r
      valid-Post (ok _) = refl
      valid-Post (err e) = tt

      deploy_keeps :
          (input : OtelColConfigInput) (config : OtelConfig) (args : List (String × String))
          (sa : NamespacedName)
          → IsValidFor k input
          → assemble_config o.opaque o.platform input ≡ (config, some args)
          → o.validate_assembled_config config ≡ ok tt
          → sa.name ≡ (service_account k).name
          → Keeps P (deploy o k input config args sa)
      unfolding deploy desired
      deploy_keeps input config args sa good assembled valid' same =
          Keeps-bind _ _ (own_keeps _ _) (λ _.
            Keeps-bind _ _
              (Keeps-wrapping _ _ (
                permits.reconcile_resource k
                  (secret (auth_secret k input.relations.outputs_with_secret_data)) known
                  (input, good, refl)))
              (λ _. Keeps-bind _ _ (own_keeps _ _) (λ _.
                Keeps-bind _ _
                  (Keeps-wrapping _ _ (
                    permits.reconcile_resource k (desired o k input config args sa) known
                      (refl, (input, good, assembled, valid', refl, refl, same))))
                  (λ _. Keeps-pure _))))

      pub apply_keeps :
          (input : OtelColConfigInput) (config : OtelConfig) (args : List (String × String))
          → IsValidFor k input
          → assemble_config o.opaque o.platform input ≡ (config, some args)
          → Keeps P (apply o k input config args)
      unfolding apply valid rights
      apply_keeps input config args good assembled =
          Keeps-bind-result P (λ _. o.validate_assembled_config config ≡ ok tt) (valid o k config)
            (λ _. rights o k >>= deploy o k input config args) (Keeps-wrapping _ _ (lift_keeps _))
            (Returns-wrapping _ _ (lift (o.validate_assembled_config config))
              (record { from = λ w. valid-Post _ }))
            (λ _ passed.
              Keeps-bind-result P (λ n. n.name ≡ (service_account k).name) (rights o k)
                (deploy o k input config args) (Keeps-wrapping _ _ reconcile_rbac_keeps)
                (Returns-wrapping _ _ (reconcile_rbac o k) (reconcile_rbac-IsAccount o k))
                (λ sa same. deploy_keeps input config args sa good assembled passed same))
