-- ===== src/Route/Handlers/Writes.antt =====
-- Which writes the three handlers make, whatever happens.
use telemetry_controller.Prelude.{
  String, ◌≡◌, refl, sym, subst, ◌∙◌, ◌⊎◌, inl, inr, some, List, [], ◌∷◌, Bool-cases, All, arith,
}
use telemetry_controller.Api.{state_ready, state_failed, Output, Subscription, Bridge, Tenant}
use telemetry_controller.Problem.{add}
use telemetry_controller.Cluster.{Error, Result, ok, err, Client}
use telemetry_controller.Cluster.Writes.{
  Keeps, Allows, Post, Keeps-pure, Keeps-fail, Keeps-bind, Keeps-wrapping,
}
use telemetry_controller.Utils.{get_concrete_type_from_list}
use telemetry_controller.Utils.Conversion.{get_concrete_type_from_list-All}
use telemetry_controller.TenantResources.{Resource, subscription, output, tenant_of}
use telemetry_controller.TenantResources.Ownership.Claims.{MayOutput, MaySubscription}
use telemetry_controller.TenantResources.Validation.{
  OutputMap, Validated, validate_subscription_referenced_outputs_with_cache,
}
use telemetry_controller.TenantResources.Validation.Writes.{validate_keeps}
use telemetry_controller.Bridges.{validate_bridge_connection}
use telemetry_controller.Bridges.Connections.{validate_bridge_keeps}
use telemetry_controller.Route.Status.{bridge_status_eq}
use telemetry_controller.Route.Handlers.{
  judge, judged, validate_each, with_outputs, with_subscriptions, validate_subscription_outputs,
  as_subscription, settle_bridge, check_bridges, failed_bridge, ready_bridge,
}

-- A status that is written says that all is well and lists no problem, or that it failed.
abbrev pub MayBridge : Bridge → Type 0
MayBridge b =
    ((b.status.state ≡ state_ready) × (b.status.problems ≡ some []) × (b.status.problems_count ≡ 0))
    ⊎ (b.status.state ≡ state_failed)

module _ {W : Type 0} (c : Client W) {P : W → Type 0} {may_tenant : Tenant → Type 0}
    (tenant : String)
    (allows : Allows c P (MayOutput tenant) (MaySubscription tenant) MayBridge may_tenant) where
  judged_tenant : (s : Subscription) (v : Validated) → (judged s v).status.tenant ≡ s.status.tenant
  unfolding judged judge add
  judged_tenant s v = ground arith

  -- What is allowed for the tenant is allowed for a subscription of it.
  own_allows :
      (s : Subscription)
      → s.status.tenant ≡ tenant
      → Allows c P (MayOutput s.status.tenant) (MaySubscription tenant) MayBridge may_tenant
  own_allows s own =
      subst (λ n. Allows c P (MayOutput n) (MaySubscription tenant) MayBridge may_tenant) (sym own)
        allows

  validate_each_keeps :
      (ss : List Subscription) (m : OutputMap)
      → All (λ s. s.status.tenant ≡ tenant) ss
      → Keeps P (validate_each c ss m)
  unfolding validate_each
  validate_each_keeps [] m own = record { at = λ w h. h }
  validate_each_keeps (s ∷ ss) m own = record {
    at = λ w h.
        let (v, w') = validate_subscription_referenced_outputs_with_cache c s m w in
        (Keeps-bind _ _
            (Keeps-wrapping _ (c.update_subscription (judged s v))
              (allows.update_subscription (judged s v) (inl (judged_tenant s v ∙ own.0))))
            (λ _.
              Keeps-bind (validate_each c ss v.output_map) _
                (validate_each_keeps ss v.output_map own.1) (λ rest. Keeps-pure _))).at
          w' (validate_keeps c s (own_allows s own.0) m w h);
  }

  with_outputs_keeps :
      (t : Tenant) (ss : List Subscription) (r : Result (List Output))
      → All (λ s. s.status.tenant ≡ tenant) ss
      → Keeps P (with_outputs c t ss r)
  unfolding with_outputs
  with_outputs_keeps t ss (err e) own = Keeps-fail _
  with_outputs_keeps t ss (ok outputs) own = validate_each_keeps ss _ own

  with_subscriptions_keeps :
      (t : Tenant) (outputs : List Resource) (r : Result (List Subscription))
      → Post (All (λ s. s.status.tenant ≡ tenant)) r
      → Keeps P (with_subscriptions c t outputs r)
  unfolding with_subscriptions
  with_subscriptions_keeps t outputs (err e) own = Keeps-fail _
  with_subscriptions_keeps t outputs (ok ss) own = with_outputs_keeps t ss _ own

  as_subscription_own :
      (r : Resource) (s : Subscription)
      → as_subscription r ≡ some s
      → tenant_of r ≡ tenant
      → s.status.tenant ≡ tenant
  as_subscription_own (subscription q) s e h = ground arith
  as_subscription_own (output o) s e h = ground arith

  pub validate_subscription_outputs_keeps :
      (t : Tenant) (subs outputs : List Resource)
      → All (λ r. tenant_of r ≡ tenant) subs
      → Keeps P (validate_subscription_outputs c t subs outputs)
  unfolding validate_subscription_outputs
  validate_subscription_outputs_keeps t subs outputs own =
      with_subscriptions_keeps t outputs (get_concrete_type_from_list as_subscription subs) (
        get_concrete_type_from_list-All as_subscription (λ r. tenant_of r ≡ tenant)
          (λ s. s.status.tenant ≡ tenant) as_subscription_own subs own)

  failed_bridge_may : (b : Bridge) (e : Error) → MayBridge (failed_bridge c b e)
  unfolding failed_bridge
  failed_bridge_may b e = inr refl

  ready_bridge_may : (b : Bridge) → MayBridge (ready_bridge c b)
  unfolding ready_bridge
  ready_bridge_may b = inl (refl, refl, refl)

  settle_bridge_keeps :
      (n : String) (b : Bridge) (r : Result (Unit {0})) → Keeps P (settle_bridge c n b r)
  unfolding settle_bridge
  settle_bridge_keeps n b (err e) = record {
    at = λ w h. (allows.update_bridge (failed_bridge c b e) (failed_bridge_may b e)).at w h;
  }
  settle_bridge_keeps n b (ok _) = record {
    at = λ w h.
        let b' : Bridge = ready_bridge c b in
        elim (Bool-cases (bridge_status_eq b.status b'.status)) [
          | inl same ↦ rw same h
          | inr other ↦ rw other (
              (Keeps-wrapping _ (c.update_bridge b')
                  (allows.update_bridge b' (ready_bridge_may b))).at
                w h)
        ];
  }

  pub check_bridges_keeps : (n : String) (bs : List Bridge) → Keeps P (check_bridges c n bs)
  unfolding check_bridges
  check_bridges_keeps n [] = record { at = λ w h. h }
  check_bridges_keeps n (b ∷ bs) = record {
    at = λ w h.
        let r = validate_bridge_connection c n b w in
        (Keeps-bind (settle_bridge c n b r.0) _ (settle_bridge_keeps n b r.0)
            (λ _. check_bridges_keeps n bs)).at
          r.1 ((validate_bridge_keeps c allows n b).at w h);
  }
