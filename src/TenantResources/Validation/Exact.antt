-- ===== src/TenantResources/Validation/Exact.antt =====
-- The lists of valid and invalid references, as filters of the references of the subscription.
use telemetry_controller.Prelude.{
  ◌≡◌, refl, ap, ◌∙◌, fun_ext, Bool, true, false, not, ◌||◌, Option, none, some, List, [], ◌∷◌, map,
  lookup, insert, lookup-insert, keep, arith, Option-cases, Bool-cases, inl, inr,
}
use telemetry_controller.Api.{
  NamespacedName, string, name_instance, name_eq_iff, Output, output_name, SecretReference,
  OutputAuth, Subscription,
}
use telemetry_controller.Cluster.{Client}
use telemetry_controller.Components.Secrets.{is_ok, query_output_secret_usable}
use telemetry_controller.TenantResources.Validation.{
  OutputMap, Check, Validated, check_tenant, judge_secret, check_secret, check_output,
  validate_refs, accept, reject, validate_subscription_referenced_outputs_with_cache,
}
use telemetry_controller.TenantResources.Validation.Verdict.{
  SameSubject, check_output_same, usable_auth, is_valid, IsKeyed,
}

module _ {W : Type 0} (c : Client W) (there : SecretReference → Bool)
    (stable : (r : SecretReference) (w : W) → is_ok (c.get_secret r w).0 ≡ there r)
    (s : Subscription) where
  check_secret_invalid :
      (ref : NamespacedName) (k : Check) (a : Option OutputAuth) (w : W)
      → (check_secret c ref k a w).0.invalid ≡ k.invalid || not (usable_auth there a)
  unfolding check_secret judge_secret
  check_secret_invalid ref k none w = ground arith
  check_secret_invalid ref k (some a) w =
      ground (arith, query_output_secret_usable c there stable k.output a w)

  check_output_invalid :
      (ref : NamespacedName) (o : Output) (w : W)
      → (check_output c s ref o w).0 ≡ not (is_valid there s (some o))
  unfolding check_output check_tenant
  check_output_invalid ref o w =
      ground (arith, check_secret_invalid ref (check_tenant s ref o) o.spec.authentication w)

  valid_of_map : OutputMap → NamespacedName → Bool
  valid_of_map m ref = is_valid there s (lookup ref m)

  valid_of_map-insert :
      (m : OutputMap) (ref : NamespacedName) (o o' : Output)
      → lookup ref m ≡ some o
      → SameSubject o' o
      → (r : NamespacedName) → valid_of_map (insert ref o' m) r ≡ valid_of_map m r
  unfolding valid_of_map
  valid_of_map-insert m ref o o' found same r =
      ground (arith, lookup-insert ref r o' m, name_eq_iff ref r, same.tenants, same.specs)

  IsKeyed-insert :
      (m : OutputMap) (ref : NamespacedName) (o o' : Output)
      → IsKeyed m
      → lookup ref m ≡ some o
      → SameSubject o' o
      → IsKeyed (insert ref o' m)
  IsKeyed-insert m ref o o' keyed found same r p h =
      ground
        (arith, lookup-insert ref r o' m, name_eq_iff ref r, keyed r p, keyed ref o, same.names)

  -- The two lists, and the keys that the later rounds rely on.
  record IsExact (refs : List NamespacedName) (m : OutputMap) (v : Validated) : Type 0 where
    valids : v.valid_outputs ≡ keep (valid_of_map m) refs
    invalids : v.invalid_outputs ≡ map string (keep (λ r. not (valid_of_map m r)) refs)

  reject-IsExact :
      (refs : List NamespacedName) (m : OutputMap) (ref key : NamespacedName) (v : Validated)
      → valid_of_map m ref ≡ false
      → key ≡ ref
      → IsExact refs m v
      → IsExact (ref ∷ refs) m (reject (string key) v)
  unfolding reject
  reject-IsExact refs m ref key v bad same h = record {
    valids = ground (arith, h.valids);
    invalids = ground (arith, h.invalids, same);
  }

  accept-IsExact :
      (refs : List NamespacedName) (m : OutputMap) (ref : NamespacedName) (v : Validated)
      → valid_of_map m ref ≡ true
      → IsExact refs m v
      → IsExact (ref ∷ refs) m (accept ref v)
  unfolding accept
  accept-IsExact refs m ref v good h = record {
    valids = ground (arith, h.valids);
    invalids = ground (arith, h.invalids);
  }

  -- A round leaves the verdicts on the other references as they are.
  IsExact-insert :
      (refs : List NamespacedName) (m : OutputMap) (ref : NamespacedName) (o o' : Output)
      (v : Validated)
      → lookup ref m ≡ some o
      → SameSubject o' o
      → IsExact refs (insert ref o' m) v
      → IsExact refs m v
  IsExact-insert refs m ref o o' v found same h =
      let eq = fun_ext (valid_of_map-insert m ref o o' found same) in
      record {
        valids = h.valids ∙ ap (λ p. keep p refs) eq;
        invalids =
            h.invalids
            ∙ ap (λ (p : NamespacedName → Bool). map string (keep (λ r. not (p r)) refs)) eq;
      }

  validate_refs-IsExact :
      (refs : List NamespacedName) (m : OutputMap) (w : W)
      → IsKeyed m
      → IsExact refs m (validate_refs c s refs m w).0
  unfolding validate_refs
  validate_refs-IsExact [] m w keyed = record { valids = refl; invalids = refl }
  validate_refs-IsExact (ref ∷ refs) m w keyed = elim (Option-cases (lookup ref m)) [
    | inl missing ↦
        rw (missing, validate_refs)
          (reject-IsExact refs m ref ref (validate_refs c s refs m w).0
            (unfold valid_of_map in rw missing) refl (validate_refs-IsExact refs m w keyed))
    | inr (o, found) ↦
        let (invalid, o', w') = check_output c s ref o w in
        let same = check_output_same c s ref o w in
        let later = validate_refs c s refs (insert ref o' m) w' in
        let ih = IsExact-insert refs m ref o o' later.0 found same (
          validate_refs-IsExact refs (insert ref o' m) w'
            (IsKeyed-insert m ref o o' keyed found same)) in
        let verdict = check_output_invalid ref o w in
        rw (found, validate_refs)
          (elim (Bool-cases invalid) [
            | inl bad ↦ rw bad (
                reject-IsExact refs m ref (output_name o') later.0
                  (unfold valid_of_map in rw found (ground (arith, verdict, bad)))
                  (same.names ∙ keyed ref o found) ih)
            | inr good ↦ rw good (
                accept-IsExact refs m ref later.0
                  (unfold valid_of_map in rw found (ground (arith, verdict, good))) ih)
          ])
  ]

  -- While the secrets stay as they are, and if each output of the cache is kept under its own name,
  -- the valid references are exactly those that resolve to an output of the subscription's tenant
  -- with a usable authentication or none, in order, and the others are reported by their names, in
  -- order.
  pub validate_exact :
      (m : OutputMap) (w : W)
      → IsKeyed m
      → ((validate_subscription_referenced_outputs_with_cache c s m w).0.valid_outputs
          ≡ keep (λ r. is_valid there s (lookup r m)) s.spec.outputs)
        × ((validate_subscription_referenced_outputs_with_cache c s m w).0.invalid_outputs
            ≡ map string (keep (λ r. not (is_valid there s (lookup r m))) s.spec.outputs))
  unfolding validate_subscription_referenced_outputs_with_cache valid_of_map
  validate_exact m w keyed =
      let h = validate_refs-IsExact s.spec.outputs m w keyed in (h.valids, h.invalids)
