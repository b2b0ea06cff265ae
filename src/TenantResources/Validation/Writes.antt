-- ===== src/TenantResources/Validation/Writes.antt =====
-- What a validation writes: an output of the tenant, or one that it marks as failed.
use telemetry_controller.Prelude.{
  ◌≡◌, refl, ◌∙◌, inl, inr, false, Option, none, some, List, [], ◌∷◌, lookup, insert, string_eq,
  arith, eq_iff, Bool-cases, Option-cases,
}
use telemetry_controller.Api.{
  NamespacedName, name_instance, Output, OutputAuth, Subscription, Bridge, Tenant,
}
use telemetry_controller.Cluster.{Client}
use telemetry_controller.Cluster.Writes.{Allows}
use telemetry_controller.Components.Secrets.{query_output_secret_keeps}
use telemetry_controller.TenantResources.Ownership.Claims.{MayOutput}
use telemetry_controller.TenantResources.Validation.{
  OutputMap, Check, check_tenant, judge_secret, check_secret, settle, check_output, validate_refs,
  validate_subscription_referenced_outputs_with_cache,
}
use telemetry_controller.TenantResources.Validation.Verdict.{
  check_tenant-SameSubject, check_secret-SameSubject,
}

module _ {W : Type 0} (c : Client W) {P : W → Type 0} {may_subscription : Subscription → Type 0}
    {may_bridge : Bridge → Type 0} {may_tenant : Tenant → Type 0} (s : Subscription)
    (allows : Allows c P (MayOutput s.status.tenant) may_subscription may_bridge may_tenant) where
  settle_keeps :
      (k : Check) (w : W)
      → (k.invalid ≡ false → k.output.status.tenant ≡ s.status.tenant)
      → P w
      → P (settle c k w).1
  unfolding settle
  settle_keeps k w own h = elim (Bool-cases k.invalid) [
    | inl bad ↦ simp bad ((allows.update_output _ (inr (inr refl))).at w h)
    | inr good ↦ simp good ((allows.update_output _ (inl (own good))).at w h)
  ]

  -- An output that passes the test on tenants has the subscription's.
  check_tenant_own :
      (ref : NamespacedName) (o : Output)
      → (check_tenant s ref o).invalid ≡ false
      → o.status.tenant ≡ s.status.tenant
  unfolding check_tenant
  check_tenant_own ref o good = ground (arith, eq_iff o.status.tenant s.status.tenant)

  -- The secret's check never makes an invalid output valid.
  check_secret_passed :
      (ref : NamespacedName) (k : Check) (a : Option OutputAuth) (w : W)
      → (check_secret c ref k a w).0.invalid ≡ false
      → k.invalid ≡ false
  unfolding check_secret judge_secret
  check_secret_passed ref k none w good = good
  check_secret_passed ref k (some a) w good = ground arith

  check_secret_keeps :
      (ref : NamespacedName) (k : Check) (a : Option OutputAuth) (w : W)
      → P w
      → P (check_secret c ref k a w).1
  unfolding check_secret
  check_secret_keeps ref k none w h = h
  check_secret_keeps ref k (some a) w h =
      (query_output_secret_keeps c allows.get_secret k.output a).at w h

  check_output_keeps :
      (ref : NamespacedName) (o : Output) (w : W) → P w → P (check_output c s ref o w).2
  unfolding check_output
  check_output_keeps ref o w h =
      let k = check_tenant s ref o in
      let l = check_secret c ref k o.spec.authentication w in
      settle_keeps l.0 l.1
        (λ good.
          (check_secret-SameSubject c ref k o.spec.authentication w).tenants
          ∙ (check_tenant-SameSubject s ref o).tenants
          ∙ check_tenant_own ref o (check_secret_passed ref k o.spec.authentication w good))
        (check_secret_keeps ref k o.spec.authentication w h)

  validate_refs_keeps :
      (refs : List NamespacedName) (m : OutputMap) (w : W) → P w → P (validate_refs c s refs m w).1
  unfolding validate_refs
  validate_refs_keeps [] m w h = h
  validate_refs_keeps (ref ∷ refs) m w h = elim (Option-cases (lookup ref m)) [
    | inl missing ↦ rw (missing, validate_refs) (validate_refs_keeps refs m w h)
    | inr (o, found) ↦
        let (invalid, o', w') = check_output c s ref o w in
        rw (found, validate_refs)
          (validate_refs_keeps refs (insert ref o' m) w' (check_output_keeps ref o w h))
  ]

  pub validate_keeps :
      (m : OutputMap) (w : W)
      → P w
      → P (validate_subscription_referenced_outputs_with_cache c s m w).1
  unfolding validate_subscription_referenced_outputs_with_cache
  validate_keeps m w h = validate_refs_keeps s.spec.outputs m w h
