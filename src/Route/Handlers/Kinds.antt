-- ===== src/Route/Handlers/Kinds.antt =====
-- Which writes handleOwnedResources and the other handlers make, with the tenant beside the
-- cluster. What is kept is a property of the cluster and the tenant's name.
use telemetry_controller.Prelude.{
  String, ◌≡◌, refl, subst, ◌∙◌, inl, inr, some, List, [], ◌∷◌, ◌++◌, ◌⧺◌, arith, sort, Bool-cases,
  All, All-append, string_eq, ◌==◌,
}
use telemetry_controller.Api.{state_failed, Tenant}
use telemetry_controller.Cluster.{Exec, pure, ◌>>=◌, Client}
use telemetry_controller.Cluster.Writes.{
  Keeps, Allows, Returns, Keeps-pure, Keeps-bind, Keeps-bind-result, Keeps-wrapping,
  Returns-wrapping,
}
use telemetry_controller.TenantResources.{
  Resource, subscription, output, Kind, subscription_kind, output_kind, other_kind, tenant_of,
  state_of, update, set_tenant,
}
use telemetry_controller.TenantResources.Ownership.{Owned, update_resources_for_tenant}
use telemetry_controller.TenantResources.Ownership.Split.{
  IsSplit, get_resource_owned_by_tenant-IsSplit,
}
use telemetry_controller.TenantResources.Ownership.Claims.{
  MayOutput, MaySubscription, update_resources_keeps, disown_keeps, get_resource_owned_keeps,
  get_resources_referencing_keeps, get_logsource_keeps,
}
use telemetry_controller.Bridges.{get_bridge_names_from_bridges}
use telemetry_controller.Bridges.Connections.{get_bridges_keeps}
use telemetry_controller.Route.Handlers.Writes.{
  MayBridge, validate_subscription_outputs_keeps, check_bridges_keeps,
}
use telemetry_controller.Route.Handlers.{
  Steps, set_log_source_namespaces, set_connected_bridges, lift, current, modify, claim, release,
  check_states, conclude_kind, handle_kind, handle_kind_of, settle_kind, settle_owned,
  validate_owned, log_source_namespaces_of, bridge_resources_of, handle_kinds,
  handle_owned_resources, handle_log_source_namespaces, handle_bridge_resources,
}

module _ {W : Type 0} (c : Client W) {P : W → Type 0} {may_tenant : Tenant → Type 0}
    (tenant : String)
    (allows : Allows c P (MayOutput tenant) (MaySubscription tenant) MayBridge may_tenant) where
  -- The tenant keeps its name, and the cluster its property.
  abbrev pub Held : Tenant × W → Type 0
  Held st = (st.0.name ≡ tenant) × P st.1

  lift_keeps : {A : Type 0} (m : Exec W A) → Keeps P m → Keeps Held (lift c m)
  unfolding lift
  lift_keeps m k = record { at = λ st h. (h.0, k.at st.1 h.1) }

  modify_keeps :
      (f : Tenant → Tenant) → ((t : Tenant) → (f t).name ≡ t.name) → Keeps Held (modify c f)
  unfolding modify
  modify_keeps f same = record { at = λ st h. (same st.0 ∙ h.0, h.1) }

  -- The tenant that a handler reads has the name.
  current_keeps :
      {A : Type 0} (f : Tenant → Steps W A)
      → ((t : Tenant) → t.name ≡ tenant → Keeps Held (f t))
      → Keeps Held (current c >>= f)
  unfolding current
  current_keeps f k = record { at = λ st h. (k st.0 h.0).at st h }

  check_states_keeps : (rs : List Resource) → Keeps Held (check_states rs)
  unfolding check_states
  check_states_keeps [] = record { at = λ st h. h }
  check_states_keeps (r ∷ rs) = record {
    at = λ st h. elim (Bool-cases (state_of r == state_failed)) [
      | inl failed ↦ rw failed h
      | inr fine ↦ rw fine ((check_states_keeps rs).at st h)
    ];
  }

  tenant_of-set_tenant : (r : Resource) → tenant_of (set_tenant tenant r) ≡ tenant
  tenant_of-set_tenant (subscription s) = refl
  tenant_of-set_tenant (output o) = refl

  claimed_own :
      (rs : List Resource) (w : W)
      → All (λ r. tenant_of r ≡ tenant) (update_resources_for_tenant c tenant rs w).0
  unfolding update_resources_for_tenant
  claimed_own [] w = tt
  claimed_own (r ∷ rs) w =
      ground (arith, claimed_own rs (update c (set_tenant tenant r) w).1, tenant_of-set_tenant r)

  claim_keeps : (n : String) (rs : List Resource) → n ≡ tenant → Keeps P (claim c n rs)
  unfolding claim
  claim_keeps n rs same = rw same (record { at = update_resources_keeps c tenant allows rs })

  release_keeps : (rs : List Resource) → Keeps P (release c rs)
  unfolding release
  release_keeps rs = record { at = disown_keeps c tenant allows rs }

  validate_owned_keeps :
      (mine outputs : List Resource) (t : Tenant)
      → All (λ r. tenant_of r ≡ tenant) mine
      → Keeps Held (validate_owned c mine outputs t)
  unfolding validate_owned
  validate_owned_keeps mine outputs t own =
      Keeps-bind _ _
        (Keeps-wrapping ("failed to validate subscription outputs for tenant " ⧺ t.name) _
          (lift_keeps _ (validate_subscription_outputs_keeps c tenant allows t mine outputs own)))
        (λ subs.
          Keeps-bind (check_states subs) (λ _. pure outputs) (check_states_keeps subs)
            (λ _. Keeps-pure outputs))

  conclude_kind_keeps :
      (kind : Kind) (mine outputs : List Resource)
      → All (λ r. tenant_of r ≡ tenant) mine
      → Keeps Held (conclude_kind c kind mine outputs)
  unfolding conclude_kind
  conclude_kind_keeps subscription_kind mine outputs own =
      Keeps-bind _ _ (modify_keeps _ (λ t. refl)) (λ _.
        current_keeps (validate_owned c mine outputs)
          (λ t same. validate_owned_keeps mine outputs t own))
  conclude_kind_keeps output_kind mine outputs own =
      Keeps-bind (check_states mine) (λ _. pure mine) (check_states_keeps mine)
        (λ _. Keeps-pure mine)
  conclude_kind_keeps other_kind mine outputs own =
      Keeps-bind (check_states mine) (λ _. pure outputs) (check_states_keeps mine)
        (λ _. Keeps-pure outputs)

  lift-Returns : {A : Type 0} (R : A → Type 0) (m : Exec W A) → Returns R m → Returns R (lift c m)
  unfolding lift
  lift-Returns R m k = record { from = λ st. k.from st.1 }

  claim-Returns :
      (n : String) (rs : List Resource)
      → n ≡ tenant
      → Returns (All (λ r. tenant_of r ≡ tenant)) (claim c n rs)
  unfolding claim
  claim-Returns n rs same = rw same (record { from = claimed_own rs })

  settle_owned_keeps :
      (kind : Kind) (outputs : List Resource) (t : Tenant) (mine : List Resource)
      → All (λ r. tenant_of r ≡ tenant) mine
      → Keeps Held (settle_owned c kind outputs t mine)
  unfolding settle_owned
  settle_owned_keeps kind outputs t mine own =
      Keeps-bind _ _
        (Keeps-wrapping ("failed to get resources:  to disown for tenant: " ⧺ t.name) _
          (lift_keeps _ (get_resources_referencing_keeps c tenant allows t kind mine)))
        (λ gone.
          Keeps-bind _ _ (lift_keeps _ (release_keeps gone))
            (λ _. conclude_kind_keeps kind mine outputs own))

  settle_kind_keeps :
      (kind : Kind) (outputs : List Resource) (t : Tenant) (split : Owned)
      → t.name ≡ tenant
      → All (λ r. tenant_of r ≡ tenant) split.owned_list
      → Keeps Held (settle_kind c kind outputs t split)
  unfolding settle_kind
  settle_kind_keeps kind outputs t split same own =
      Keeps-bind-result Held (All (λ r. tenant_of r ≡ tenant))
        (lift c (claim c t.name split.update_list))
        (λ claimed. settle_owned c kind outputs t (split.owned_list ++ claimed))
        (lift_keeps _ (claim_keeps t.name split.update_list same))
        (lift-Returns _ _ (claim-Returns t.name split.update_list same))
        (λ claimed theirs.
          settle_owned_keeps kind outputs t (split.owned_list ++ claimed)
            (All-append _ split.owned_list claimed own theirs))

  handle_kind_keeps :
      (kind : Kind) (outputs : List Resource) → Keeps Held (handle_kind c kind outputs)
  unfolding handle_kind handle_kind_of
  handle_kind_keeps kind outputs = current_keeps (handle_kind_of c kind outputs) (λ t same.
      Keeps-bind-result Held (IsSplit t.name) _ _
        (Keeps-wrapping _ _ (lift_keeps _ (get_resource_owned_keeps c tenant allows kind t same)))
        (Returns-wrapping _ _ _
          (lift-Returns _ _ (get_resource_owned_by_tenant-IsSplit c (some kind) t)))
        (λ split is.
          settle_kind_keeps kind outputs t split same
            (subst (λ n. All (λ r. tenant_of r ≡ n) split.owned_list) same is.owned)))

  handle_kinds_keeps :
      (kinds : List Kind) (outputs : List Resource) → Keeps Held (handle_kinds c kinds outputs)
  unfolding handle_kinds
  handle_kinds_keeps [] outputs = Keeps-pure tt
  handle_kinds_keeps (kind ∷ kinds) outputs =
      Keeps-bind _ _ (handle_kind_keeps kind outputs) (handle_kinds_keeps kinds)

  pub handle_owned_resources_keeps : Keeps Held (handle_owned_resources c)
  unfolding handle_owned_resources
  handle_owned_resources_keeps = handle_kinds_keeps (output_kind ∷ subscription_kind ∷ []) []

  pub handle_log_source_namespaces_keeps : Keeps Held (handle_log_source_namespaces c)
  unfolding handle_log_source_namespaces log_source_namespaces_of
  handle_log_source_namespaces_keeps = current_keeps (log_source_namespaces_of c) (λ t same.
      Keeps-bind _ _ (Keeps-wrapping _ _ (lift_keeps _ (get_logsource_keeps c tenant allows t)))
        (λ names. modify_keeps (set_log_source_namespaces (sort names)) (λ u. refl)))

  pub handle_bridge_resources_keeps : Keeps Held (handle_bridge_resources c)
  unfolding handle_bridge_resources bridge_resources_of
  handle_bridge_resources_keeps = current_keeps (bridge_resources_of c) (λ t same.
      Keeps-bind _ _ (Keeps-wrapping _ _ (lift_keeps _ (get_bridges_keeps c allows t.name)))
        (λ bridges.
          Keeps-bind _ _
            (modify_keeps (set_connected_bridges (sort (get_bridge_names_from_bridges bridges)))
              (λ u. refl))
            (λ _. lift_keeps _ (check_bridges_keeps c tenant allows t.name bridges))))
