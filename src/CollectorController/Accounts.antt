-- ===== src/CollectorController/Accounts.antt =====
-- The account that ReconcileRBAC returns is the one that it makes.
use telemetry_controller.Prelude.{
  String, ◌≡◌, refl, sym, subst, In, In-append_left, In-append_right, inl, Option, none, some, List,
  [], ◌∷◌, ◌++◌, map, ◌⧺◌,
}
use telemetry_controller.Api.{NamespacedName}
use telemetry_controller.Cluster.{Error, combine, Result, ok, err, pure, wrapping, ◌>>=◌}
use telemetry_controller.Cluster.Writes.{Post, Returns, Returns-bind}
use telemetry_controller.Utils.{normalize_string_slice}
use telemetry_controller.ConfGen.{OtelColConfigInput}
use telemetry_controller.ConfGen.Assembly.{OtelConfig}
use telemetry_controller.Collector.Credentials.{auth_secret}
use telemetry_controller.Collector.{Collector}
use telemetry_controller.Collector.Rbac.{service_account}
use telemetry_controller.CollectorController.Objects.{Operator, account, secret}
use telemetry_controller.CollectorController.Creation.{
  own, valid, rights, desired, deploy, apply, lift, combined, errors_of, unless_error,
  reconcile_service_account, account_of, reconcile_rbac,
}

-- An error makes the combination one.
pub combined-some : (e : Error) (es : List Error) → In e es → (f : Error) × (combined es ≡ some f)
unfolding combined
combined-some e [] here = elim here [ ]
combined-some e (d ∷ es) here = first (combined es)
  where
    first :
        (rest : Option Error)
        → (f : Error) × (elim rest [ none ↦ some d | some f ↦ some (combine d f) ] ≡ some f)
    first none = (d, refl)
    first (some f) = (combine d f, refl)

module _ {W : Type 0} (o : Operator W) (k : Collector) where
  abbrev pub IsAccount : NamespacedName → Type 0
  IsAccount n = n.name ≡ (service_account k).name

  made : Returns IsAccount (reconcile_service_account o k)
  unfolding reconcile_service_account
  made =
      Returns-bind IsAccount (lift (o.set_controller_reference (account (service_account k)))) _
        (λ _.
          Returns-bind IsAccount (o.reconcile_resource (account (service_account k)))
            (λ _.
              pure {W = W}
                (let a = service_account k in record { namespace = a.namespace; name = a.name }))
            (λ _. record { from = λ w. refl }))

  joined-Post :
      (before after : List Error) (b : Result NamespacedName)
      → Post IsAccount b
      → Post IsAccount (unless_error (combined (before ++ errors_of b ++ after)) (account_of o k b))
  unfolding unless_error account_of
  joined-Post before after (ok n) h = either (combined (before ++ [] ++ after))
    where
      either : (x : Option Error) → Post IsAccount (unless_error x n)
      either none = h
      either (some e) = tt
  joined-Post before after (err e) h =
      let (f, same) = combined-some e (before ++ (e ∷ []) ++ after) (among before) in
      subst (λ x. Post IsAccount (unless_error x (account_of o k (err e)))) (sym same) tt
    where
      among : (xs : List Error) → In e (xs ++ (e ∷ []) ++ after)
      among xs = In-append_left e (xs ++ e ∷ []) after (In-append_right e xs (e ∷ []) (inl refl))

  pub reconcile_rbac-IsAccount : Returns IsAccount (reconcile_rbac o k)
  unfolding reconcile_rbac
  reconcile_rbac-IsAccount = record { from = λ w. joined-Post _ _ _ (made.from _) }

  -- The names that are set in the status are those of some tenants, in order.
  abbrev pub AreNames : List String → Type 0
  AreNames ts = (names : List String) × (ts ≡ normalize_string_slice names)

  pub apply-AreNames :
      (input : OtelColConfigInput) (config : OtelConfig) (args : List (String × String))
      → Returns AreNames (apply o k input config args)
  unfolding apply deploy
  apply-AreNames input config args =
      Returns-bind AreNames (valid o k config) (λ _. rights o k >>= deploy o k input config args)
        (λ _. Returns-bind AreNames (rights o k) (deploy o k input config args) (λ sa.
          Returns-bind AreNames
            (own o k "auth secret"
              (secret (auth_secret k input.relations.outputs_with_secret_data)))
            _
            (λ _.
              Returns-bind AreNames
                (wrapping ("failed reconciling auth secret for collector " ⧺ k.name) (
                  o.reconcile_resource
                    (secret (auth_secret k input.relations.outputs_with_secret_data))))
                _
                (λ _.
                  Returns-bind AreNames
                    (own o k "OpenTelemetryCollector" (desired o k input config args sa)) _
                    (λ _.
                      Returns-bind AreNames
                        (wrapping
                          ("failed reconciling OpenTelemetryCollector for collector " ⧺ k.name)
                          (o.reconcile_resource (desired o k input config args sa)))
                        (λ _.
                          pure {W = W}
                            (normalize_string_slice (map (λ t. t.name) input.relations.tenants)))
                        (λ _. record {
                          from = λ w. (map (λ t. t.name) input.relations.tenants, refl);
                        }))))))
