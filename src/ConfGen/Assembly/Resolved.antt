-- ===== src/ConfGen/Assembly/Resolved.antt =====
-- otel_conf_gen.go: when the resources of a configuration name only each other, and the connectors
-- that are there then.
use telemetry_controller.Prelude.{
  String, ◌≡◌, ◌≢◌, sym, subst, ◌⊎◌, inr, Option, none, some, List, [], ◌∷◌, All, All-In, All-keep,
  In, IsKey, string_eq, ◌⧺◌, arith,
}
use telemetry_controller.Api.{
  NamespacedName, name_instance, Subscription, subscription_name, Tenant,
}
use telemetry_controller.Components.{find_outputs_for_subscription}
use telemetry_controller.Pipelines.{Pipeline, generate_pipeline, filter_empty_pipelines}
use telemetry_controller.ConfGen.{OtelColConfigInput, generate_receivers}
use telemetry_controller.ConfGen.Service.{names_of_tenant, routing_subscription}
use telemetry_controller.ConfGen.Service.Connected.{routing_tenant}
use telemetry_controller.ConfGen.Assembly.{generate_exporters, generate_connectors}
use telemetry_controller.ConfGen.Assembly.Connected.{routing-IsKey}
use telemetry_controller.ConfGen.Assembly.Received.{AreDistinct}
use telemetry_controller.ConfGen.Service.Connected as Service

-- The relations name only what they hold: tenants are told apart by their names; a name with a list
-- of subscriptions is that of a tenant; a tenant whose status has subscriptions has some in the map,
-- and one that selects namespaces selects some; a listed subscription is there and has outputs.
pub record IsResolved (i : OtelColConfigInput) : Type 0 where
  pub distinct : AreDistinct i.relations.tenants
  pub known :
      All
        (λ e. (t : Tenant) × In t i.relations.tenants × (t.name ≡ e.0))
        i.relations.tenant_subscription_map
  pub listed :
      (t : Tenant)
      → In t i.relations.tenants
      → t.status.subscriptions ≢ none
      → names_of_tenant i t.name ≢ []
  pub selected : (t : Tenant) → In t i.relations.tenants → t.status.log_source_namespaces ≢ some []
  pub subscribed :
      (tenant : String)
      → All
          (λ n.
            (s : Subscription) × In (n, s) i.relations.subscriptions
            × (subscription_name s ≡ n)
            × (find_outputs_for_subscription i.relations n ≢ []))
          (names_of_tenant i tenant)

module _ (opaque : String → String) (i : OtelColConfigInput) where
  abbrev pub Reads : String → Type 0
  Reads k = IsKey k (generate_receivers i) ⊎ IsKey k (generate_connectors i)

  abbrev pub Sends : String → Type 0
  Sends k = IsKey k (generate_exporters opaque i) ⊎ IsKey k (generate_connectors i)

  abbrev pub Links : Pipeline → Type 0
  Links p = All Reads p.receivers × All Sends p.exporters

  pub generate_pipeline-Links :
      (receivers processors exporters : List String)
      → All Reads receivers
      → All Sends exporters
      → Links (generate_pipeline receivers processors exporters)
  unfolding generate_pipeline filter_empty_pipelines
  generate_pipeline-Links receivers processors exporters r e =
      (All-keep Reads _ receivers r, All-keep Sends _ exporters e)

  module _ (good : IsResolved i) where
    pub tenant_connected :
        (name : String) (subs : Option (List NamespacedName))
        → In (name, subs) i.relations.tenant_subscription_map
        → names_of_tenant i name ≢ []
        → IsKey (routing_tenant name) (generate_connectors i)
    tenant_connected name subs here some_name =
        let (t, there, same) = All-In _ _ _ good.known here in
        subst (λ x. IsKey (routing_tenant x) (generate_connectors i)) same
          (routing-IsKey i _ (
            Service.tenant-IsKey i t there
              (subst (λ x. names_of_tenant i x ≢ []) (sym same) some_name)))

    pub subscription_connected :
        (name : String) (s : NamespacedName)
        → In s (names_of_tenant i name)
        → IsKey (routing_subscription s) (generate_connectors i)
    subscription_connected name n here =
        let (s, there, same, fed) = All-In _ _ _ (good.subscribed name) here in
        subst (λ x. IsKey (routing_subscription x) (generate_connectors i)) same
          (routing-IsKey i _ (
            Service.subscription-IsKey i n s there
              (subst (λ x. find_outputs_for_subscription i.relations x ≢ []) (sym same) fed)))

    not_empty : (ns : List NamespacedName) (n : NamespacedName) → In n ns → ns ≢ []
    not_empty [] n h e = h
    not_empty (k ∷ ns) n h e = ground (arith, e)

    pub subscription-Links :
        (name : String) (subs : Option (List NamespacedName)) (s : NamespacedName)
        → In (name, subs) i.relations.tenant_subscription_map
        → In s (names_of_tenant i name)
        → Links (
            generate_pipeline
              (routing_tenant name ∷ [])
              (("attributes/subscription_" ⧺ s.name) ∷ [])
              (routing_subscription s ∷ []))
    subscription-Links name subs s here at =
        generate_pipeline-Links _ _ _
          (inr (tenant_connected name subs here (not_empty (names_of_tenant i name) s at)), tt)
          (inr (subscription_connected name s at), tt)
