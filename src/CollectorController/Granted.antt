-- ===== src/CollectorController/Granted.antt =====
-- ReconcileRBAC: what has been done when it succeeds.
use telemetry_controller.Prelude.{
  String, ◌≡◌, refl, subst, In, In-append_left, In-append_right, inl, List, ◌++◌, arith,
}
use telemetry_controller.Api.{NamespacedName}
use telemetry_controller.Cluster.{Error, Result, ok, err, Exec, pure, wrapping, ◌>>=◌}
use telemetry_controller.Cluster.Succeeded.{wrapping-ok, then-ok}
use telemetry_controller.Collector.{Collector}
use telemetry_controller.Collector.Rbac.{cluster_role, service_account, cluster_role_binding}
use telemetry_controller.CollectorController.Objects.{Operator, Desired, role, account, binding}
use telemetry_controller.CollectorController.Accounts.{combined-some}
use telemetry_controller.CollectorController.Creation.{
  lift, combined, errors_of, unless_error, own, reconcile_cluster_role, reconcile_service_account,
  reconcile_cluster_role_binding, reconcile_rbac,
}

-- The errors that are combined into a value are none.
unless-ok :
    {A : Type 0}
    → (es : List Error) (a b : A) (e : Error) → unless_error (combined es) a ≡ ok b
    → In e es
    → ⊥
unfolding unless_error
unless-ok es a b e h at =
    let (f, same) = combined-some e es at in refused (subst (λ x. unless_error x a ≡ ok b) same h)
  where
    refused : {f : Error} → err f ≡ ok b → ⊥
    refused h = ground (arith, h)

no_error :
    {A : Type 0} → (r : Result A) → ((e : Error) → In e (errors_of r) → ⊥) → (a : A) × (r ≡ ok a)
no_error (ok a) h = (a, refl)
no_error (err e) h = absurd (h e (inl refl))

module _ {W : Type 0} (o : Operator W) (k : Collector) where
  -- The object was reconciled without an error.
  abbrev pub IsReconciled : Desired → Type 0
  IsReconciled d = (v : W) × ((o.reconcile_resource d v).0 ≡ ok tt)

  reconciled :
      (text other : String) (d : Desired) (w : W)
      → ((own o k other d >>= (λ _. wrapping text (o.reconcile_resource d))) w).0 ≡ ok tt
      → IsReconciled d
  reconciled text other d w h =
      let (u, _, second) =
        then-ok (own o k other d) (λ _. wrapping text (o.reconcile_resource d)) w tt h in
      (
        (own o k other d w).1,
        wrapping-ok text (o.reconcile_resource d) (own o k other d w).1 tt second,
      )

  account-IsReconciled :
      (w : W) (n : NamespacedName)
      → (reconcile_service_account o k w).0 ≡ ok n
      → IsReconciled (account (service_account k))
  unfolding reconcile_service_account
  account-IsReconciled w n h =
      let d = account (service_account k) in
      let named : Unit {0} → Exec W NamespacedName = λ _.
        pure (let a = service_account k in record { namespace = a.namespace; name = a.name }) in
      let (u, _, second) =
        then-ok (lift {W = W} (o.set_controller_reference d))
          (λ _. o.reconcile_resource d >>= named) w n h in
      let (v, there, _) = then-ok (o.reconcile_resource d) named w n second in (w, there)

  -- All of the three attempts of ReconcileRBAC succeed, if it does.
  pub record HasRights : Type 0 where
    pub ruled : IsReconciled (role (cluster_role k))
    pub accounted : IsReconciled (account (service_account k))
    pub bound : IsReconciled (binding (cluster_role_binding k))

  pub reconcile_rbac-HasRights :
      (w : W) (n : NamespacedName) → (reconcile_rbac o k w).0 ≡ ok n → HasRights
  unfolding reconcile_rbac reconcile_cluster_role reconcile_cluster_role_binding
  reconcile_rbac-HasRights w n h =
      let a = reconcile_cluster_role o k w in
      let b = reconcile_service_account o k a.1 in
      let d = reconcile_cluster_role_binding o k b.1 in
      let none_of = unless-ok (errors_of a.0 ++ errors_of b.0 ++ errors_of d.0) _ n in
      let ea = errors_of a.0 in
      let eb = errors_of b.0 in
      let ed = errors_of d.0 in
      let (u, e1) =
        no_error a.0
          (λ e at. none_of e h (In-append_left e (ea ++ eb) ed (In-append_left e ea eb at))) in
      let (m, e2) =
        no_error b.0
          (λ e at. none_of e h (In-append_left e (ea ++ eb) ed (In-append_right e ea eb at))) in
      let (v, e3) = no_error d.0 (λ e at. none_of e h (In-append_right e (ea ++ eb) ed at)) in
      record {
        ruled = reconciled _ _ (role (cluster_role k)) w e1;
        accounted = account-IsReconciled a.1 m e2;
        bound = reconciled _ _ (binding (cluster_role_binding k)) b.1 e3;
      }
