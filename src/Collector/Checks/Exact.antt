-- ===== src/Collector/Checks/Exact.antt =====
-- collector_manager.go: what the checks of the input of a configuration accept.
use telemetry_controller.Prelude.{
  ◌≡◌, ◌≢◌, ◌↔◌, ◌⊎◌, refl, inl, inr, String, Bool, true, false, not, ◌&&◌, Option, none, some,
  List, [], ◌∷◌, ◌++◌, contains, contains→In, In→contains, map, All, In, arith, string_eq,
}
use telemetry_controller.Api.{Subscription, Bridge, Tenant}
use telemetry_controller.Cluster.{Error}
use telemetry_controller.Collector.{Subscriptions}
use telemetry_controller.Collector.Checks.{
  unless, collect, is_set, is_empty, tenant_errors, validate_tenants, subscription_errors,
  bridge_errors, validate_subscriptions_and_bridges,
}

append_nil_both : {A : Type 0} (xs ys : List A) → xs ++ ys ≡ [] → (xs ≡ []) × (ys ≡ [])
append_nil_both [] ys h = (refl, h)
append_nil_both (x ∷ xs) ys h = ground arith

unless_nil : (holds : Bool) (e : Error) → (unless holds e ≡ []) ↔ (holds ≡ true)
unfolding unless
unless_nil true e = ((λ h. refl), (λ h. refl))
unless_nil false e = ((λ h. ground arith), (λ h. ground arith))

module _ {A : Type 0} (check : A → List Error) (P : A → Type 0)
    (exact : (a : A) → (check a ≡ []) ↔ P a) where
  collect_nil : (xs : List A) → (collect check xs ≡ []) ↔ All P xs
  unfolding collect
  collect_nil [] = ((λ h. tt), (λ h. refl))
  collect_nil (x ∷ xs) = (
    (λ h.
        let (first, rest) = append_nil_both (check x) (collect check xs) h in
        ((exact x).0 first, (collect_nil xs).0 rest)),
    (λ ps. rw ((exact x).1 ps.0) ((collect_nil xs).1 ps.1)),
  )

-- A tenant does not both select namespaces and read them all.
abbrev pub IsDecided : Tenant → Type 0
IsDecided t = (t.status.log_source_namespaces ≡ none) ⊎ (t.spec.select_from_all_namespaces ≡ false)

decided :
    {A : Type 0} (o : Option A) (b : Bool)
    → (not (is_set o && b) ≡ true) ↔ ((o ≡ none) ⊎ (b ≡ false))
decided none b = ((λ h. inl refl), (λ h. refl))
decided (some a) true = ((λ h. ground arith), (λ h. ground arith))
decided (some a) false = ((λ h. inr refl), (λ h. refl))

tenant_errors_nil : (t : Tenant) → (tenant_errors t ≡ []) ↔ IsDecided t
unfolding tenant_errors
tenant_errors_nil t = (
  (λ h. (decided _ _).0 ((unless_nil _ _).0 h)),
  (λ p.
      (unless_nil _ _).1
        ((decided t.status.log_source_namespaces t.spec.select_from_all_namespaces).1 p)),
)

-- The check of the tenants reports nothing if and only if there is one, and none of them both
-- selects namespaces for its logs and reads those of all.
pub validate_tenants_exact :
    (tenants : List Tenant)
    → (validate_tenants tenants ≡ []) ↔ ((tenants ≢ []) × All IsDecided tenants)
unfolding validate_tenants
validate_tenants_exact [] = ((λ h. ground arith), (λ p. absurd (p.0 refl)))
validate_tenants_exact (t ∷ ts) = (
  (λ h.
      ((λ e. ground arith), (collect_nil tenant_errors IsDecided tenant_errors_nil (t ∷ ts)).0 h)),
  (λ p. (collect_nil tenant_errors IsDecided tenant_errors_nil (t ∷ ts)).1 p.1),
)

nonempty : {A : Type 0} (xs : List A) → (not (is_empty xs) ≡ true) ↔ (xs ≢ [])
nonempty [] = ((λ h. ground arith), (λ h. absurd (h refl)))
nonempty (x ∷ xs) = ((λ h e. ground arith), (λ h. refl))

-- The tenants at the ends of a bridge are among those of the names.
abbrev pub IsJoined : List String → Bridge → Type 0
IsJoined tenants b = In b.spec.source_tenant tenants × In b.spec.target_tenant tenants

subscription_errors_nil :
    (s : Subscription) → (subscription_errors s ≡ []) ↔ ((let spec = s.spec in spec.outputs) ≢ [])
unfolding subscription_errors
subscription_errors_nil s = (
  (λ h. (nonempty _).0 ((unless_nil _ _).0 h)),
  (λ p. (unless_nil _ _).1 ((nonempty (let spec = s.spec in spec.outputs)).1 p)),
)

bridge_errors_nil :
    (tenants : List String) (b : Bridge) → (bridge_errors tenants b ≡ []) ↔ IsJoined tenants b
unfolding bridge_errors
bridge_errors_nil tenants b = (
  (λ h.
      let (source, target) = append_nil_both _ _ h in
      (
        contains→In tenants b.spec.source_tenant ((unless_nil _ _).0 source),
        contains→In tenants b.spec.target_tenant ((unless_nil _ _).0 target),
      )),
  (λ p.
      rw ((unless_nil (contains tenants b.spec.source_tenant) _).1 (In→contains tenants _ p.0))
        ((unless_nil _ _).1 (In→contains tenants b.spec.target_tenant p.1))),
)

-- The check of the subscriptions and bridges reports nothing if and only if there is one of either,
-- every subscription has an output, and every bridge joins two of the tenants.
pub validate_subscriptions_and_bridges_exact :
    (tenants : List Tenant) (subscriptions : Subscriptions) (bridges : List Bridge)
    → (validate_subscriptions_and_bridges tenants subscriptions bridges ≡ []) ↔ (
        ((subscriptions ≢ []) ⊎ (bridges ≢ []))
        × All (λ e. (let spec = e.1.spec in spec.outputs) ≢ []) subscriptions
        × All (IsJoined (map (λ t. t.name) tenants)) bridges)
unfolding validate_subscriptions_and_bridges
validate_subscriptions_and_bridges_exact tenants subscriptions bridges = split subscriptions bridges
  where
    served :
        (m : Subscriptions)
        → (collect (λ e. subscription_errors e.1) m ≡ [])
          ↔ All (λ e. (let spec = e.1.spec in spec.outputs) ≢ []) m
    served m =
        collect_nil (λ e. subscription_errors e.1) (λ e. (let spec = e.1.spec in spec.outputs) ≢ [])
          (λ e. subscription_errors_nil e.1) m

    joined :
        (bs : List Bridge)
        → (collect (bridge_errors (map (λ t. t.name) tenants)) bs ≡ [])
          ↔ All (IsJoined (map (λ t. t.name) tenants)) bs
    joined bs =
        collect_nil (bridge_errors (map (λ t. t.name) tenants))
          (IsJoined (map (λ t. t.name) tenants)) (bridge_errors_nil (map (λ t. t.name) tenants)) bs

    both :
        (m : Subscriptions) (bs : List Bridge)
        → (m ≢ []) ⊎ (bs ≢ [])
        → ((collect (λ e. subscription_errors e.1) m
              ++ collect (bridge_errors (map (λ t. t.name) tenants)) bs)
            ≡ [])
          ↔ (((m ≢ []) ⊎ (bs ≢ []))
              × All (λ e. (let spec = e.1.spec in spec.outputs) ≢ []) m
              × All (IsJoined (map (λ t. t.name) tenants)) bs)
    both m bs some_one = (
      (λ h.
          let (first, second) = append_nil_both _ _ h in
          (some_one, (served m).0 first, (joined bs).0 second)),
      (λ p. rw ((served m).1 p.1) ((joined bs).1 p.2)),
    )

    split :
        (m : Subscriptions) (bs : List Bridge)
        → (validate_subscriptions_and_bridges tenants m bs ≡ []) ↔ (
            ((m ≢ []) ⊎ (bs ≢ []))
            × All (λ e. (let spec = e.1.spec in spec.outputs) ≢ []) m
            × All (IsJoined (map (λ t. t.name) tenants)) bs)
    split [] [] = (
      (λ h. ground arith),
      (λ p. elim p.0 [
        | inl some_one ↦ absurd (some_one refl)
        | inr some_one ↦ absurd (some_one refl)
      ]),
    )
    split [] (b ∷ bs) = both [] (b ∷ bs) (inr (λ e. ground arith))
    split (x ∷ m) bs = both (x ∷ m) bs (inl (λ e. ground arith))
