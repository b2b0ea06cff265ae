-- ===== src/Route/Handlers.antt =====
-- route_controller.go: the three handlers.
pub mod Writes
pub mod Kinds
use telemetry_controller.Prelude.{
  String, Bool, true, false, Option, none, some, List, [], ◌∷◌, ◌++◌, map, insert, string_eq, ◌==◌,
  ◌⧺◌, sort, join, if◌then◌else◌,
}
use telemetry_controller.Api.{
  NamespacedName, string, name_instance, state_ready, state_failed, Output, output_name,
  Subscription, subscription_name, set_subscription_state, clear_subscription_problems, Bridge,
  set_bridge_state, clear_bridge_problems, Tenant,
}
use telemetry_controller.Problem.{add_subscription_problem, add_bridge_problem}
use telemetry_controller.Cluster.{
  Error, message, wrap, combine, Result, ok, err, Exec, pure, fail, wrapping, ◌>>=◌, ◌>>◌, Client,
}
use telemetry_controller.Utils.{get_concrete_type_from_list}
use telemetry_controller.Components.{sort_namespaced_names}
use telemetry_controller.TenantResources.{
  Resource, subscription, output, Kind, subscription_kind, output_kind, other_kind, state_of,
  name_of, get_resource_names_from_resource, get_logsource_namespace_names_for_tenant,
}
use telemetry_controller.TenantResources.Ownership.{
  Owned, get_resource_owned_by_tenant, update_resources_for_tenant,
  get_resources_referencing_tenant_but_not_selected, disown_resources,
}
use telemetry_controller.TenantResources.Validation.{
  OutputMap, Validated, validate_subscription_referenced_outputs_with_cache,
}
use telemetry_controller.Bridges.{
  get_bridges_for_tenant, validate_bridge_connection, get_bridge_names_from_bridges,
}
use telemetry_controller.Route.Status.{bridge_status_eq}

-- An action on the cluster and the tenant that is being reconciled.
abbrev pub Steps : Type 0 → Type 0 → Type 0
Steps W A = Exec (Tenant × W) A

abbrev as_output : Resource → Option Output
as_output (output o) = some o
as_output (subscription s) = none

abbrev as_subscription : Resource → Option Subscription
as_subscription (subscription s) = some s
as_subscription (output o) = none

-- What %T prints of a resource's type.
abbrev kind_name : Kind → String
kind_name subscription_kind = "*v1alpha1.Subscription"
kind_name output_kind = "*v1alpha1.Output"
kind_name other_kind = ""

-- What the handlers set of the tenant's status.
abbrev pub set_log_source_namespaces : List String → Tenant → Tenant
set_log_source_namespaces names t = record t {
  status = record t.status { log_source_namespaces = some names };
}

abbrev pub set_subscriptions : List NamespacedName → Tenant → Tenant
set_subscriptions names t = record t { status = record t.status { subscriptions = some names } }

abbrev pub set_connected_bridges : List String → Tenant → Tenant
set_connected_bridges names t = record t {
  status = record t.status { connected_bridges = some names };
}

output_map_of : List Output → OutputMap → OutputMap
output_map_of [] m = m
output_map_of (o ∷ os) m = output_map_of os (insert (output_name o) o m)

-- A nil slice of valid outputs stays nil.
abbrev sorted_outputs : List NamespacedName → Option (List NamespacedName)
sorted_outputs [] = none
sorted_outputs (r ∷ rs) = some (sort_namespaced_names (r ∷ rs))

-- The state and the problems that a validation gives a subscription.
judge : Subscription → List String → Subscription
judge s [] = clear_subscription_problems (set_subscription_state state_ready s)
judge s (bad ∷ more) =
    add_subscription_problem
      ("invalid outputs referenced by subscription " ⧺ s.name ⧺ ": " ⧺ join (bad ∷ more) ", ")
      (set_subscription_state state_failed s)

-- The subscription as it is after a round of the loop.
pub judged : Subscription → Validated → Subscription
judged s v =
    let s' = judge s v.invalid_outputs in
    record s' { status = record s'.status { outputs = sorted_outputs v.valid_outputs } }

check_states : {W : Type 0} → List Resource → Exec W (Unit {0})
check_states [] w = (ok tt, w)
check_states (r ∷ rs) w =
    let rest = check_states rs w in
    if state_of r == state_failed
    then (
      err (
          message (
            "resource "
            ⧺ (let n : NamespacedName = name_of r in n.name)
            ⧺ " is in a failed state")),
      w,
    )
    else rest

module _ {W : Type 0} (c : Client W) where
  lift : {A : Type 0} → Exec W A → Steps W A
  lift m (t, w) = let r = m w in (r.0, (t, r.1))

  current : Steps W Tenant
  current (t, w) = (ok t, (t, w))

  modify : (Tenant → Tenant) → Steps W (Unit {0})
  modify f (t, w) = (ok tt, (f t, w))

  log_source_namespaces_of : Tenant → Steps W (Unit {0})
  log_source_namespaces_of t = do
    names ←
        wrapping ("failed to get logsource namespaces for tenant " ⧺ t.name)
          (lift (get_logsource_namespace_names_for_tenant c t))
    modify (set_log_source_namespaces (sort names))

  unfoldable pub handle_log_source_namespaces : Steps W (Unit {0})
  unfolding log_source_namespaces_of lift current modify
  handle_log_source_namespaces = do t ← current; log_source_namespaces_of t

  -- The loop of validateSubscriptionOutputs. The status is compared as a pointer with a struct,
  -- which are never deeply equal, so every subscription is written.
  validate_each : List Subscription → OutputMap → Exec W (List Resource)
  validate_each [] m w = (ok [], w)
  validate_each (s ∷ ss) m w =
      let (v, w') = validate_subscription_referenced_outputs_with_cache c s m w in
      let s' = judged s v in
      (do
        wrapping ("failed updating subscription status for " ⧺ string (subscription_name s))
            (c.update_subscription s')
        rest ← validate_each ss v.output_map
        pure (subscription s' ∷ rest))
        w'

  with_outputs : Tenant → List Subscription → Result (List Output) → Exec W (List Resource)
  with_outputs t subs (err e) =
      fail (wrap ("failed to get concrete type from list for outputs for tenant " ⧺ t.name) e)
  with_outputs t subs (ok outputs) = validate_each subs (output_map_of outputs [])

  with_subscriptions : Tenant → List Resource → Result (List Subscription) → Exec W (List Resource)
  with_subscriptions t outputs (err e) =
      fail (wrap ("failed to get concrete type from list for subscriptions for tenant " ⧺ t.name) e)
  with_subscriptions t outputs (ok subs) =
      with_outputs t subs (get_concrete_type_from_list as_output outputs)

  -- validateSubscriptionOutputs: the subscriptions as it leaves them.
  unfoldable pub validate_subscription_outputs :
      Tenant → List Resource → List Resource → Exec W (List Resource)
  unfolding with_subscriptions with_outputs validate_each judged judge output_map_of
  validate_subscription_outputs t subs outputs =
      with_subscriptions t outputs (get_concrete_type_from_list as_subscription subs)

  claim : String → List Resource → Exec W (List Resource)
  claim tenant rs w = let (done, w') = update_resources_for_tenant c tenant rs w in (ok done, w')

  release : List Resource → Exec W (Unit {0})
  release rs w = (ok tt, disown_resources c rs w)

  -- The validation of the tenant's subscriptions, and the check of their states.
  validate_owned : List Resource → List Resource → Tenant → Steps W (List Resource)
  validate_owned mine outputs t = do
    subs ←
        wrapping ("failed to validate subscription outputs for tenant " ⧺ t.name)
          (lift (validate_subscription_outputs t mine outputs))
    check_states subs
    pure outputs

  -- What handleOwnedResources does after the resources of a kind are settled: the outputs that the
  -- next round validates against.
  conclude_kind : Kind → List Resource → List Resource → Steps W (List Resource)
  conclude_kind subscription_kind mine outputs = do
    modify (set_subscriptions (sort_namespaced_names (get_resource_names_from_resource mine)))
    t ← current
    validate_owned mine outputs t
  conclude_kind output_kind mine outputs = do check_states mine; pure mine
  conclude_kind other_kind mine outputs = do check_states mine; pure outputs

  -- A round of the loop of handleOwnedResources from the split of the selected resources on.
  settle_owned : Kind → List Resource → Tenant → List Resource → Steps W (List Resource)
  settle_owned kind outputs t mine = do
    gone ←
        wrapping ("failed to get resources:  to disown for tenant: " ⧺ t.name)
          (lift (get_resources_referencing_tenant_but_not_selected c t kind mine))
    lift (release gone)
    conclude_kind kind mine outputs

  settle_kind : Kind → List Resource → Tenant → Owned → Steps W (List Resource)
  settle_kind kind outputs t split = do
    claimed ← lift (claim t.name split.update_list)
    settle_owned kind outputs t (split.owned_list ++ claimed)

  handle_kind_of : Kind → List Resource → Tenant → Steps W (List Resource)
  handle_kind_of kind outputs t = do
    split ←
        wrapping ("failed to get " ⧺ kind_name kind ⧺ " for tenant " ⧺ t.name)
          (lift (get_resource_owned_by_tenant c (some kind) t))
    settle_kind kind outputs t split

  handle_kind : Kind → List Resource → Steps W (List Resource)
  handle_kind kind outputs = do t ← current; handle_kind_of kind outputs t

  handle_kinds : List Kind → List Resource → Steps W (Unit {0})
  handle_kinds [] outputs = pure tt
  handle_kinds (kind ∷ kinds) outputs = do
    outputs' ← handle_kind kind outputs
    handle_kinds kinds outputs'

  -- handleOwnedResources: outputs come first, so that subscriptions are validated against them.
  unfoldable pub handle_owned_resources : Steps W (Unit {0})
  unfolding handle_kinds handle_kind handle_kind_of settle_kind settle_owned conclude_kind
      validate_owned check_states claim release lift current modify
  handle_owned_resources = handle_kinds (output_kind ∷ subscription_kind ∷ []) []

  -- What the loop of handleBridgeResources writes of a bridge.
  pub failed_bridge : Bridge → Error → Bridge
  failed_bridge b e =
      set_bridge_state state_failed
        (add_bridge_problem (c.text (wrap ("bridge " ⧺ b.name ⧺ " validation failed") e)) b)

  pub ready_bridge : Bridge → Bridge
  ready_bridge b = clear_bridge_problems (set_bridge_state state_ready b)

  -- The error for a bridge that failed with `e`, by the result of writing that.
  bridge_error : String → Bridge → Error → Result (Unit {0}) → Error
  bridge_error tenant b e (ok _) =
      wrap ("failed to validate bridge " ⧺ b.name ⧺ " for tenant " ⧺ tenant) e
  bridge_error tenant b e (err f) = combine e (wrap "failed updating bridge status" f)

  settle_bridge : String → Bridge → Result (Unit {0}) → Exec W (Unit {0})
  unfolding bridge_error
  settle_bridge tenant b (err e) w =
      let r = c.update_bridge (failed_bridge b e) w in (err (bridge_error tenant b e r.0), r.1)
  settle_bridge tenant b (ok _) w =
      if bridge_status_eq b.status (let b' : Bridge = ready_bridge b in b'.status)
      then (ok tt, w)
      else wrapping ("failed updating bridge " ⧺ b.name ⧺ " status")
          (c.update_bridge (ready_bridge b)) w

  pub check_bridges : String → List Bridge → Exec W (Unit {0})
  check_bridges tenant [] w = (ok tt, w)
  check_bridges tenant (b ∷ bs) w =
      let r = validate_bridge_connection c tenant b w in
      (do settle_bridge tenant b r.0; check_bridges tenant bs) r.1

  bridge_resources_of : Tenant → Steps W (Unit {0})
  bridge_resources_of t = do
    bridges ←
        wrapping ("failed to get bridges for tenant " ⧺ t.name)
          (lift (get_bridges_for_tenant c t.name))
    modify (set_connected_bridges (sort (get_bridge_names_from_bridges bridges)))
    lift (check_bridges t.name bridges)

  unfoldable pub handle_bridge_resources : Steps W (Unit {0})
  unfolding bridge_resources_of check_bridges settle_bridge failed_bridge ready_bridge lift current
      modify
  handle_bridge_resources = do t ← current; bridge_resources_of t
