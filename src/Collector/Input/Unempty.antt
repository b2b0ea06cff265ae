-- ===== src/Collector/Input/Unempty.antt =====
-- collector_manager.go: for which inputs ValidateConfigInput reports ErrNoResources.
use telemetry_controller.Prelude.{
  ◌≡◌, ◌↔◌, refl, sym, ◌∙◌, subst, inl, inr, Bool-cases, string_eq, nat_eq, ◌==◌, not, ◌&&◌,
  false≢true, Bool, true, false, List, [], ◌∷◌, All, All-append, arith, map,
}
use telemetry_controller.Api.{Bridge, Tenant}
use telemetry_controller.Cluster.{Error, no_resources, ok, err, pure, wrapping, ◌>>=◌, Client}
use telemetry_controller.Cluster.Writes.{Returns, Returns-bind}
use telemetry_controller.Cluster.Succeeded.{returned}
use telemetry_controller.ConfGen.{OtelColConfigInput}
use telemetry_controller.Collector.{
  Subscriptions, Collector, get_tenants_matching_selectors, gather_tenants, select_outputs,
  input_of, build_from, build_config_input_for_collector,
}
use telemetry_controller.Collector.Checks.{
  unless, collect, tenant_errors, validate_tenants, subscription_errors, bridge_errors,
  validate_subscriptions_and_bridges,
}
use telemetry_controller.Collector.Input.{
  is_nil, has_no_resources, is_zero_limiter, is_empty, errors_of, error_or_nil,
  validate_config_input, errors_is, any_is, is_no_resources,
}

-- The error is not ErrNoResources, nor made of it.
abbrev IsOther : Error → Type 0
IsOther e = errors_is is_no_resources e ≡ false

unless-All : (holds : Bool) (e : Error) → IsOther e → All IsOther (unless holds e)
unfolding unless
unless-All true e h = tt
unless-All false e h = (h, tt)

collect-All :
    {A : Type 0}
    → (check : A → List Error) (xs : List A) → ((x : A) → All IsOther (check x))
    → All IsOther (collect check xs)
unfolding collect
collect-All check [] h = tt
collect-All check (x ∷ xs) h = All-append IsOther (check x) _ (h x) (collect-All check xs h)

tenants-All : (ts : List Tenant) → All IsOther (validate_tenants ts)
unfolding validate_tenants tenant_errors errors_is
tenants-All [] = (refl, tt)
tenants-All (t ∷ ts) = collect-All tenant_errors (t ∷ ts) (λ u. unless-All _ _ refl)

rest-All :
    (ts : List Tenant) (ss : Subscriptions) (bs : List Bridge)
    → All IsOther (validate_subscriptions_and_bridges ts ss bs)
unfolding validate_subscriptions_and_bridges subscription_errors bridge_errors errors_is collect
rest-All ts [] [] = (refl, tt)
rest-All ts (s ∷ ss) bs =
    All-append IsOther (collect (λ e. subscription_errors e.1) (s ∷ ss)) _
      (collect-All (λ e. subscription_errors e.1) (s ∷ ss) (λ e. unless-All _ _ refl))
      (collect-All (bridge_errors (map (λ t. t.name) ts)) bs
        (λ b. All-append IsOther _ _ (unless-All _ _ refl) (unless-All _ _ refl)))
rest-All ts [] (b ∷ bs) =
    collect-All (bridge_errors (map (λ t. t.name) ts)) (b ∷ bs)
      (λ d. All-append IsOther _ _ (unless-All _ _ refl) (unless-All _ _ refl))

any-All : (es : List Error) → All IsOther es → any_is is_no_resources (errors_of es) ≡ false
unfolding any_is errors_of errors_is
any-All [] h = refl
any-All (e ∷ es) h = ground (arith, h.0, any-All es h.1)

nil-IsOther : (es : List Error) (e : Error) → All IsOther es → error_or_nil es ≡ err e → IsOther e
unfolding error_or_nil errors_is
nil-IsOther [] e h same = ground (arith, same)
nil-IsOther (d ∷ es) e h same =
    subst (λ r. elim r [ ok _ ↦ Unit | err x ↦ IsOther x ]) same (any-All (d ∷ es) h)

both : (a b : Bool) → (a && b ≡ true) ↔ ((a ≡ true) × (b ≡ true))
both true b = (λ h. (refl, h), λ h. h.1)
both false b = (λ h. ground (arith, h), λ h. ground (arith, h.0))

is_nil_iff : {A : Type 0} → (xs : List A) → (is_nil xs ≡ true) ↔ (xs ≡ [])
is_nil_iff [] = (λ h. refl, λ h. refl)
is_nil_iff (x ∷ xs) = (λ h. ground (arith, h), λ h. ground (arith, h))

-- All structs of the input are zero.
pub record IsZero (i : OtelColConfigInput) : Type 0 where
  pub allocated : i.relations.allocated ≡ false
  pub tenants : i.relations.tenants ≡ []
  pub subscriptions : i.relations.subscriptions ≡ []
  pub bridges : i.relations.bridges ≡ []
  pub outputs : i.relations.outputs_with_secret_data ≡ []
  pub tenant_map : i.relations.tenant_subscription_map ≡ []
  pub output_map : i.relations.subscription_output_map ≡ []
  pub interval : i.memory_limiter.check_interval ≡ ""
  pub limit_mib : i.memory_limiter.memory_limit_mib ≡ 0
  pub spike_mib : i.memory_limiter.memory_spike_limit_mib ≡ 0
  pub limit_percentage : i.memory_limiter.memory_limit_percentage ≡ 0
  pub spike_percentage : i.memory_limiter.memory_spike_percentage ≡ 0

is_empty-IsZero : (i : OtelColConfigInput) → is_empty i ≡ true → IsZero i
unfolding is_empty has_no_resources is_zero_limiter
is_empty-IsZero i h =
    let rel = i.relations in
    let m = i.memory_limiter in
    let e1 = is_nil rel.tenants && is_nil rel.subscriptions in
    let e2 = e1 && is_nil rel.bridges in
    let e3 = e2 && is_nil rel.outputs_with_secret_data in
    let e4 = e3 && is_nil rel.tenant_subscription_map in
    let m1 = m.check_interval == "" && m.memory_limit_mib == 0 in
    let m2 = m1 && m.memory_spike_limit_mib == 0 in
    let m3 = m2 && m.memory_limit_percentage == 0 in
    let (rest, limiter) =
      (both (not rel.allocated && has_no_resources rel) (is_zero_limiter m)).0 h in
    let (unmade, none_there) = (both (not rel.allocated) (has_no_resources rel)).0 rest in
    let (b4, a5) = (both e4 (is_nil rel.subscription_output_map)).0 none_there in
    let (b3, a4) = (both e3 (is_nil rel.tenant_subscription_map)).0 b4 in
    let (b2, a3) = (both e2 (is_nil rel.outputs_with_secret_data)).0 b3 in
    let (b1, a2) = (both e1 (is_nil rel.bridges)).0 b2 in
    let (a, a1) = (both (is_nil rel.tenants) (is_nil rel.subscriptions)).0 b1 in
    let (r3, l4) = (both m3 (m.memory_spike_percentage == 0)).0 limiter in
    let (r2, l3) = (both m2 (m.memory_limit_percentage == 0)).0 r3 in
    let (r1, l2) = (both m1 (m.memory_spike_limit_mib == 0)).0 r2 in
    let (l, l1) = (both (m.check_interval == "") (m.memory_limit_mib == 0)).0 r1 in
    record {
      allocated = unset i.relations.allocated unmade;
      tenants = (is_nil_iff _).0 a;
      subscriptions = (is_nil_iff _).0 a1;
      bridges = (is_nil_iff _).0 a2;
      outputs = (is_nil_iff _).0 a3;
      tenant_map = (is_nil_iff _).0 a4;
      output_map = (is_nil_iff _).0 a5;
      interval = (string_eq.beq_iff _ _).0 l;
      limit_mib = (nat_eq.beq_iff _ _).0 l1;
      spike_mib = (nat_eq.beq_iff _ _).0 l2;
      limit_percentage = (nat_eq.beq_iff _ _).0 l3;
      spike_percentage = (nat_eq.beq_iff _ _).0 l4;
    }
  where
    unset : (b : Bool) → not b ≡ true → b ≡ false
    unset true e = ground (arith, e)
    unset false e = refl

IsZero-is_empty : (i : OtelColConfigInput) → IsZero i → is_empty i ≡ true
unfolding is_empty has_no_resources is_zero_limiter
IsZero-is_empty i z =
    rw
      (
        z.allocated, z.tenants, z.subscriptions, z.bridges, z.outputs, z.tenant_map, z.output_map,
        z.interval, z.limit_mib, z.spike_mib, z.limit_percentage, z.spike_percentage,
      )
      refl

others :
    (i : OtelColConfigInput) (e : Error)
    → is_empty i ≡ false
    → validate_config_input i ≡ err e
    → IsOther e
unfolding validate_config_input
others i e full h =
    nil-IsOther _ e
      (All-append IsOther (validate_tenants i.relations.tenants) _ (tenants-All i.relations.tenants)
        (rest-All i.relations.tenants i.relations.subscriptions i.relations.bridges))
      (rw full at h)

-- ValidateConfigInput reports ErrNoResources, alone or within another error, exactly if all structs
-- of the input are zero: no resources are there, no map or slice of them was made, and no option of
-- the memory limiter is set.
pub validate_config_input-no_resources :
    (i : OtelColConfigInput)
    → ((e : Error) × (validate_config_input i ≡ err e) × (errors_is is_no_resources e ≡ true))
      ↔ IsZero i
unfolding validate_config_input errors_is
validate_config_input-no_resources i = (back, forth)
  where
    back :
        (e : Error) × (validate_config_input i ≡ err e) × (errors_is is_no_resources e ≡ true)
        → IsZero i
    back (e, h, reported) = elim (Bool-cases (is_empty i)) [
      | inl empty ↦ is_empty-IsZero i empty
      | inr full ↦ absurd (false≢true (sym (others i e full h) ∙ reported))
    ]

    forth :
        IsZero i
        → (e : Error) × (validate_config_input i ≡ err e) × (errors_is is_no_resources e ≡ true)
    forth z = (no_resources, rw (IsZero-is_empty i z) refl, refl)

module _ {W : Type 0} (c : Client W) where
  build-allocated :
      (collector : Collector)
      → Returns (λ i. i.relations.allocated ≡ true) (build_config_input_for_collector c collector)
  unfolding build_config_input_for_collector build_from input_of
  build-allocated collector =
      let made : OtelColConfigInput → Type 0 = λ i. i.relations.allocated ≡ true in
      Returns-bind made
        (wrapping "failed listing tenants"
          (get_tenants_matching_selectors c collector.tenant_selector))
        (build_from c collector)
        (λ tenants.
          Returns-bind made
            (gather_tenants c tenants
              (record { subscriptions = []; bridges = []; tenant_subscription_map = [] }))
            (λ g.
              select_outputs c g.subscriptions
                (record { subscription_output_map = []; outputs = [] })
              >>= (λ r. pure (input_of collector tenants g r)))
            (λ g.
              Returns-bind made
                (select_outputs c g.subscriptions
                  (record { subscription_output_map = []; outputs = [] }))
                (λ r. pure (input_of collector tenants g r)) (λ r. record { from = λ w. refl })))

  -- For an input that BuildConfigInputForCollector returns, whatever the cluster holds,
  -- ValidateConfigInput never reports ErrNoResources: without tenants, subscriptions and bridges it
  -- reports what it reports of any invalid input.
  pub validate_config_input_built :
      (collector : Collector) (w : W) (i : OtelColConfigInput) (e : Error)
      → (build_config_input_for_collector c collector w).0 ≡ ok i
      → validate_config_input i ≡ err e
      → errors_is is_no_resources e ≡ false
  validate_config_input_built collector w i e built h =
      elim (Bool-cases (errors_is is_no_resources e)) [
        | inr other ↦ other
        | inl reported ↦
            let zero = (validate_config_input-no_resources i).0 (e, h, reported) in
            absurd (
              false≢true (
                sym zero.allocated
                ∙ returned (λ x. x.relations.allocated ≡ true)
                    (build_config_input_for_collector c collector w).0 i
                    ((build-allocated collector).from w) built))
      ]
