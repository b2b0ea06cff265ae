-- ===== src/Cluster.antt =====
-- What the controllers call and do not implement: the Kubernetes client of a reconciler, and the
-- error libraries. A client is a record of functions over the cluster `W` that it talks to. A call
-- returns the cluster as it is after the call, which other actors may have changed meanwhile.
pub mod Writes
pub mod Succeeded
pub mod Results
use telemetry_controller.Prelude.{ℕ, String, Bool, List, [], if◌then◌else◌}
use telemetry_controller.Api.{
  NamespacedName, LabelSelector, Output, Subscription, Bridge, Tenant, SecretReference,
}

-- How an error was made: by the client, by errors.New or Errorf, by errors.Wrap, by
-- errors.Combine, one of the two that manager/collector_manager.go declares, that of a failed
-- conversion, with the index of the object, or a multierror.
mutual
  pub data Error : Type 0 where
    client : String → Error
    message : String → Error
    wrap : String → Error → Error
    combine : Error → Error → Error
    tenant_failed no_resources : Error
    conversion : ℕ → Error
    multierror : Errors → Error

  pub data Errors : Type 0 where
    no_more : Errors
    more : Error → Errors → Errors

pub data Result {ℓ} (A : Type ℓ) : Type ℓ where
  ok : A → Result A
  err : Error → Result A

-- A Go function that talks to the cluster and may return an error.
abbrev pub Exec : Type 0 → Type 0 → Type 0
Exec W A = W → Result A × W

module _ {W A : Type 0} where
  abbrev pub pure : A → Exec W A
  pure a w = (ok a, w)

  abbrev pub fail : Error → Exec W A
  fail e w = (err e, w)

  -- errors.Wrapf of the error, if there is one.
  abbrev pub wrapping : String → Exec W A → Exec W A
  wrapping text m w =
      let r = m w in elim r.0 [ ok a ↦ (ok a, r.1) | err e ↦ (err (wrap text e), r.1) ]

module _ {W A B : Type 0} where
  infixl 5 ◌>>=◌ ◌>>◌
  abbrev pub ◌>>=◌ : Exec W A → (A → Exec W B) → Exec W B
  ◌>>=◌ m f w = let r = m w in elim r.0 [ ok a ↦ f a r.1 | err e ↦ (err e, r.1) ]

  abbrev pub ◌>>◌ : Exec W A → Exec W B → Exec W B
  m >> n = m >>= λ _. n

-- corev1.Namespace and corev1.Secret, as far as they are read.
pub record Namespace : Type 0 where
  pub name : String

pub record Secret : Type 0 where
  pub entries : List (String × String)

pub record Client (W : Type 0) : Type 0 where
  -- apierrors.IsNotFound, apierrors.IsConflict and Error()
  pub is_not_found : Error → Bool
  pub is_conflict : Error → Bool
  pub text : Error → String
  -- metav1.LabelSelectorAsSelector
  pub as_selector : LabelSelector → Result LabelSelector
  -- List, by label selector, by namespace, and by the field indexes of SetupWithManager
  pub list_namespaces : LabelSelector → Exec W (List Namespace)
  pub list_tenants : LabelSelector → Exec W (List Tenant)
  pub list_outputs_in : String → Exec W (List Output)
  pub list_subscriptions_in : String → Exec W (List Subscription)
  pub list_outputs_of : String → Exec W (List Output)
  pub list_subscriptions_of : String → Exec W (List Subscription)
  pub list_bridges_from : String → Exec W (List Bridge)
  pub list_bridges_to : String → Exec W (List Bridge)
  pub list_tenants_named : String → Exec W (List Tenant)
  -- Get
  pub get_tenant : String → Exec W Tenant
  pub get_output : NamespacedName → Exec W Output
  pub get_subscription : NamespacedName → Exec W Subscription
  pub get_bridge : String → Exec W Bridge
  pub get_secret : SecretReference → Exec W Secret
  -- Status().Update
  pub update_output : Output → Exec W (Unit {0})
  pub update_subscription : Subscription → Exec W (Unit {0})
  pub update_bridge : Bridge → Exec W (Unit {0})
  pub update_tenant : Tenant → Exec W (Unit {0})

-- `if err := List(...); client.IgnoreNotFound(err) != nil { return err }`: a list that is not
-- found is empty.
abbrev pub ignore_not_found : {W A : Type 0} → Client W → Exec W (List A) → Exec W (List A)
ignore_not_found c m w =
    let r = m w in
    elim r.0 [
      | ok found ↦ (ok found, r.1)
      | err e ↦ if c.is_not_found e then (ok [], r.1) else (err e, r.1)
    ]
