-- ===== src/TenantResources/Validation/Verdict.antt =====
-- Which referenced outputs are found valid, decided apart from the loop.
use telemetry_controller.Prelude.{
  String, ◌≡◌, refl, ◌∙◌, fun_ext, Bool, true, false, ◌&&◌, Option, none, some, List, lookup,
  string_eq, ◌==◌, keep, arith, Bool-cases, inl, inr,
}
use telemetry_controller.Api.{
  NamespacedName, name_instance, Output, output_name, SecretReference, OutputAuth, Subscription,
}
use telemetry_controller.Problem.{add, add_output_problem}
use telemetry_controller.Cluster.{Result, ok, err, Client, Secret}
use telemetry_controller.Components.{query_output_secret}
use telemetry_controller.Components.Secrets.{is_usable}
use telemetry_controller.TenantResources.Validation.{
  OutputMap, Check, check_tenant, judge_secret, check_secret, settle, check_output,
}

-- The part of an output that a verdict depends on, and that no round changes.
pub record SameSubject (a b : Output) : Type 0 where
  pub names : output_name a ≡ output_name b
  pub tenants : a.status.tenant ≡ b.status.tenant
  pub specs : a.spec ≡ b.spec

SameSubject-refl : (o : Output) → SameSubject o o
SameSubject-refl o = record { names = refl; tenants = refl; specs = refl }

SameSubject-trans : (a b d : Output) → SameSubject a b → SameSubject b d → SameSubject a d
SameSubject-trans a b d h k = record {
  names = h.names ∙ k.names;
  tenants = h.tenants ∙ k.tenants;
  specs = h.specs ∙ k.specs;
}

add_output_problem-SameSubject : (p : String) (o : Output) → SameSubject (add_output_problem p o) o
unfolding add
add_output_problem-SameSubject p o = record {
  names = ground arith;
  tenants = ground arith;
  specs = ground arith;
}

pub check_tenant-SameSubject :
    (s : Subscription) (ref : NamespacedName) (o : Output)
    → SameSubject (check_tenant s ref o).output o
unfolding check_tenant
check_tenant-SameSubject s ref o = elim (Bool-cases (o.status.tenant == s.status.tenant)) [
  | inl same ↦ rw same (SameSubject-refl o)
  | inr other ↦ rw other (add_output_problem-SameSubject _ o)
]

module _ {W : Type 0} (c : Client W) where
  judge_secret-SameSubject :
      (ref : NamespacedName) (k : Check) (r : Result Secret)
      → SameSubject (judge_secret c ref k r).output k.output
  unfolding judge_secret
  judge_secret-SameSubject ref k (ok _) = SameSubject-refl k.output
  judge_secret-SameSubject ref k (err e) = add_output_problem-SameSubject _ k.output

  pub check_secret-SameSubject :
      (ref : NamespacedName) (k : Check) (a : Option OutputAuth) (w : W)
      → SameSubject (check_secret c ref k a w).0.output k.output
  unfolding check_secret
  check_secret-SameSubject ref k none w = SameSubject-refl k.output
  check_secret-SameSubject ref k (some a) w =
      judge_secret-SameSubject ref k (query_output_secret c k.output a w).0

  settle-SameSubject : (k : Check) (w : W) → SameSubject (settle c k w).0 k.output
  unfolding settle
  settle-SameSubject k w = record {
    names = ground arith;
    tenants = ground arith;
    specs = ground arith;
  }

  pub check_output_same :
      (s : Subscription) (ref : NamespacedName) (o : Output) (w : W)
      → SameSubject (check_output c s ref o w).1 o
  unfolding check_output
  check_output_same s ref o w =
      let k = check_tenant s ref o in
      let l = check_secret c ref k o.spec.authentication w in
      SameSubject-trans (settle c l.0 l.1).0 l.0.output o (settle-SameSubject l.0 l.1) (
        SameSubject-trans l.0.output k.output o
          (check_secret-SameSubject ref k o.spec.authentication w)
          (check_tenant-SameSubject s ref o))

-- The test, apart from the loop: the reference resolves to an output of the subscription's
-- tenant whose authentication, if it has one, is usable.
abbrev pub usable_auth : (SecretReference → Bool) → Option OutputAuth → Bool
usable_auth there none = true
usable_auth there (some a) = is_usable there a

abbrev pub is_valid : (SecretReference → Bool) → Subscription → Option Output → Bool
is_valid there s none = false
is_valid there s (some o) =
    o.status.tenant == s.status.tenant && usable_auth there o.spec.authentication

-- Every key is the name of its output.
abbrev pub IsKeyed : OutputMap → Type 0
IsKeyed m = (r : NamespacedName) (o : Output) → lookup r m ≡ some o → output_name o ≡ r

pub keep-congr :
    {A : Type 0} (p q : A → Bool) (xs : List A) → ((x : A) → p x ≡ q x) → keep p xs ≡ keep q xs
keep-congr p q xs h = rw (fun_ext h)
