-- ===== src/Cluster/Writes.antt =====
-- What a run writes: a property of the cluster that is kept by every read, and by every write that
-- is allowed, is kept by the run. As the property is any, that says which writes the run makes.
use telemetry_controller.Prelude.{
  String, ◌≡◌, refl, Bool, true, false, List, Bool-cases, inl, inr, if◌then◌else◌,
}
use telemetry_controller.Api.{
  NamespacedName, LabelSelector, Output, Subscription, Bridge, Tenant, SecretReference,
}
use telemetry_controller.Cluster.{
  Result, ok, err, Error, Exec, pure, fail, ◌>>=◌, Client, ignore_not_found, wrapping,
}

-- `m` keeps `P`, whether it returns a value or an error.
pub record Keeps {W A : Type 0} (P : W → Type 0) (m : Exec W A) : Type 0 where
  pub at : (w : W) → P w → P (m w).1

-- The reads of a client keep `P`, and so does each write whose object is allowed.
pub record Allows {W : Type 0} (c : Client W) (P : W → Type 0) (may_output : Output → Type 0)
    (may_subscription : Subscription → Type 0) (may_bridge : Bridge → Type 0)
    (may_tenant : Tenant → Type 0) : Type 0 where
  pub list_namespaces : (s : LabelSelector) → Keeps P (c.list_namespaces s)
  pub list_tenants : (s : LabelSelector) → Keeps P (c.list_tenants s)
  pub list_outputs_in : (n : String) → Keeps P (c.list_outputs_in n)
  pub list_subscriptions_in : (n : String) → Keeps P (c.list_subscriptions_in n)
  pub list_outputs_of : (n : String) → Keeps P (c.list_outputs_of n)
  pub list_subscriptions_of : (n : String) → Keeps P (c.list_subscriptions_of n)
  pub list_bridges_from : (n : String) → Keeps P (c.list_bridges_from n)
  pub list_bridges_to : (n : String) → Keeps P (c.list_bridges_to n)
  pub list_tenants_named : (n : String) → Keeps P (c.list_tenants_named n)
  pub get_tenant : (n : String) → Keeps P (c.get_tenant n)
  pub get_output : (n : NamespacedName) → Keeps P (c.get_output n)
  pub get_subscription : (n : NamespacedName) → Keeps P (c.get_subscription n)
  pub get_bridge : (n : String) → Keeps P (c.get_bridge n)
  pub get_secret : (r : SecretReference) → Keeps P (c.get_secret r)
  pub update_output : (o : Output) → may_output o → Keeps P (c.update_output o)
  pub update_subscription :
      (s : Subscription) → may_subscription s → Keeps P (c.update_subscription s)
  pub update_bridge : (b : Bridge) → may_bridge b → Keeps P (c.update_bridge b)
  pub update_tenant : (t : Tenant) → may_tenant t → Keeps P (c.update_tenant t)

-- The rules, by how an action is built.
module _ {W A : Type 0} (P : W → Type 0) where
  wrapping_at : (text : String) (r : Result A) (w : W) → P w → P (wrapping text (λ _. (r, w)) w).1
  wrapping_at text (ok a) w h = h
  wrapping_at text (err e) w h = h

  ignore_at :
      (c : Client W) (r : Result (List A)) (w : W) → P w → P (ignore_not_found c (λ _. (r, w)) w).1
  ignore_at c (ok a) w h = h
  ignore_at c (err e) w h = elim (Bool-cases (c.is_not_found e)) [
    | inl missing ↦ rw missing h
    | inr other ↦ rw other h
  ]

module _ {W A B : Type 0} (P : W → Type 0) where
  bind_at :
      (r : Result A) (f : A → Exec W B) (w : W)
      → ((a : A) → Keeps P (f a))
      → P w
      → P (((λ _. (r, w)) >>= f) w).1
  bind_at (ok a) f w k h = (k a).at w h
  bind_at (err e) f w k h = h

module _ {W A : Type 0} {P : W → Type 0} where
  pub Keeps-pure : (a : A) → Keeps P (pure {W = W} a)
  Keeps-pure a = record { at = λ w h. h }

  pub Keeps-fail : (e : Error) → Keeps P (fail {W = W} {A = A} e)
  Keeps-fail e = record { at = λ w h. h }

  pub Keeps-wrapping : (text : String) (m : Exec W A) → Keeps P m → Keeps P (wrapping text m)
  Keeps-wrapping text m k = record {
    at = λ w h. let r = m w in wrapping_at P text r.0 r.1 (k.at w h);
  }

  pub Keeps-ignore_not_found :
      (c : Client W) (m : Exec W (List A)) → Keeps P m → Keeps P (ignore_not_found c m)
  Keeps-ignore_not_found c m k = record {
    at = λ w h. let r = m w in ignore_at P c r.0 r.1 (k.at w h);
  }

  -- Of the two branches, only the one that is taken matters.
  pub Keeps-if :
      (test : Bool) (taken other : Exec W A)
      → (test ≡ true → Keeps P taken)
      → (test ≡ false → Keeps P other)
      → Keeps P (if test then taken else other)
  Keeps-if true taken other k l = k refl
  Keeps-if false taken other k l = l refl

module _ {W A B : Type 0} {P : W → Type 0} where
  pub Keeps-bind :
      (m : Exec W A) (f : A → Exec W B) → Keeps P m → ((a : A) → Keeps P (f a)) → Keeps P (m >>= f)
  Keeps-bind m f km kf = record { at = λ w h. let r = m w in bind_at P r.0 f r.1 kf (km.at w h) }

-- What holds of the value that a run returns, if it returns one.
abbrev pub Post : {A : Type 0} → (A → Type 0) → Result A → Type 0
Post R (ok a) = R a
Post R (err e) = Unit

pub Post-map :
    {A : Type 0} (R S : A → Type 0) → ((a : A) → R a → S a) → (r : Result A) → Post R r → Post S r
Post-map R S f (ok a) p = f a p
Post-map R S f (err e) p = tt

-- Whatever the cluster, a value that `m` returns satisfies `R`.
pub record Returns {W A : Type 0} (R : A → Type 0) (m : Exec W A) : Type 0 where
  pub from : (w : W) → Post R (m w).0

module _ {W A B : Type 0} (P : W → Type 0) (R : A → Type 0) where
  bind_result_at :
      (r : Result A) (f : A → Exec W B) (w : W)
      → Post R r
      → ((a : A) → R a → Keeps P (f a))
      → P w
      → P (((λ _. (r, w)) >>= f) w).1
  bind_result_at (ok a) f w p k h = (k a p).at w h
  bind_result_at (err e) f w p k h = h

  -- The rest of a sequence may rely on what the first part returns.
  pub Keeps-bind-result :
      (m : Exec W A) (f : A → Exec W B)
      → Keeps P m
      → Returns R m
      → ((a : A) → R a → Keeps P (f a))
      → Keeps P (m >>= f)
  Keeps-bind-result m f km rm kf = record {
    at = λ w h. let r = m w in bind_result_at r.0 f r.1 (rm.from w) kf (km.at w h);
  }

module _ {W A : Type 0} (R : A → Type 0) where
  wrapping-Post :
      (text : String) (r : Result A) (w : W) → Post R r → Post R (wrapping text (λ _. (r, w)) w).0
  wrapping-Post text (ok a) w p = p
  wrapping-Post text (err e) w p = tt

  pub Returns-wrapping : (text : String) (m : Exec W A) → Returns R m → Returns R (wrapping text m)
  Returns-wrapping text m k = record {
    from = λ w. let r = m w in wrapping-Post text r.0 r.1 (k.from w);
  }

module _ {W A B : Type 0} (R : B → Type 0) where
  bind-Post :
      (r : Result A) (f : A → Exec W B) (w : W)
      → ((a : A) → Returns R (f a))
      → Post R (((λ _. (r, w)) >>= f) w).0
  bind-Post (ok a) f w k = (k a).from w
  bind-Post (err e) f w k = tt

  pub Returns-bind :
      (m : Exec W A) (f : A → Exec W B) → ((a : A) → Returns R (f a)) → Returns R (m >>= f)
  Returns-bind m f kf = record { from = λ w. let r = m w in bind-Post r.0 f r.1 kf }

module _ {W A B : Type 0} (Q : A → Type 0) (R : B → Type 0) where
  then-Post :
      (r : Result A) (f : A → Exec W B) (w : W)
      → Post Q r
      → ((a : A) → Q a → Returns R (f a))
      → Post R (((λ _. (r, w)) >>= f) w).0
  then-Post (ok a) f w q k = (k a q).from w
  then-Post (err e) f w q k = tt

  -- What a sequence returns may rely on what its first part does.
  pub Returns-then :
      (m : Exec W A) (f : A → Exec W B)
      → Returns Q m
      → ((a : A) → Q a → Returns R (f a))
      → Returns R (m >>= f)
  Returns-then m f km kf = record { from = λ w. let r = m w in then-Post r.0 f r.1 (km.from w) kf }

pub ruleset keeps_rules =
    (Keeps-pure, Keeps-fail, Keeps-wrapping, Keeps-ignore_not_found, Keeps-if, Keeps-bind)
