-- ===== src/ConfGen/Assembly/Roots.antt =====
-- otel_conf_gen.go: what the tenants' root pipelines read from and write to.
use telemetry_controller.Prelude.{
  String, ◌≡◌, ◌≢◌, refl, sym, subst, ◌⊎◌, inl, inr, Bool, true, false, Option, none, some, List,
  [], ◌∷◌, ◌++◌, items, All-In, All_of, In, IsKey, Option-cases, string_eq, ◌⧺◌, arith,
  if◌then◌else◌,
}
use telemetry_controller.Api.{NamespacedName, name_instance, Tenant, Bridge}
use telemetry_controller.Pipelines.{Pipeline, generate_root_pipeline}
use telemetry_controller.Pipelines.Roots.{Feeds, root-All}
use telemetry_controller.Processors.{generate_transform_processor_for_tenant_pipeline}
use telemetry_controller.Connectors.{generate_routing_connector_for_bridges_tenant_pipeline}
use telemetry_controller.Connectors.Bridging.{bridges_sound}
use telemetry_controller.ConfGen.{OtelColConfigInput, selects, generate_receivers}
use telemetry_controller.ConfGen.Service.{names_of_tenant, events_on, root_pipeline}
use telemetry_controller.ConfGen.Service.Connected.{routing_tenant}
use telemetry_controller.ConfGen.Assembly.{generate_connectors}
use telemetry_controller.ConfGen.Assembly.Connected.{routing-IsKey, count-IsKey}
use telemetry_controller.ConfGen.Assembly.Received.{AreDistinct}
use telemetry_controller.ConfGen.Service.Connected as Service
use telemetry_controller.ConfGen.Assembly.Received as Received
use telemetry_controller.ConfGen.Assembly.Resolved.{
  IsResolved, Reads, Sends, Links, tenant_connected,
}

module _ (opaque : String → String) (i : OtelColConfigInput) (good : IsResolved i) where
  selects_something :
      (o : Option (List String)) (t : Tenant)
      → o ≢ some []
      → (o ≢ none) ⊎ (t.spec.select_from_all_namespaces ≡ true)
      → selects (items o) t ≡ true
  unfolding selects
  selects_something none t filled (inl set) = absurd (set refl)
  selects_something none t filled (inr all) = all
  selects_something (some []) t filled h = absurd (filled refl)
  selects_something (some (k ∷ ks)) t filled h = refl

  tenant-Feeds :
      (name : String) (subs : Option (List NamespacedName))
      → In (name, subs) i.relations.tenant_subscription_map
      → (t : Tenant) → In t i.relations.tenants
      → t.name ≡ name
      → Feeds name (events_on i) (Reads opaque i) (Sends opaque i) t
  unfolding events_on
  tenant-Feeds name subs here t there same =
      let at = subst (λ x. In (x, subs) i.relations.tenant_subscription_map) (sym same) here in
      record {
        receivers = λ h.
            let keys =
              Received.tenant-IsKey i t there good.distinct
                (selects_something t.status.log_source_namespaces t (good.selected t there) h) subs
                at in
            (
              inl (subst (λ x. IsKey ("file_log/" ⧺ x) (generate_receivers i)) same keys.0),
              λ on. elim (Option-cases i.events_to_logs) [
                | inl quiet ↦ ground (arith, on, quiet)
                | inr (e, events) ↦ inl (
                    subst (λ x. IsKey ("k8s_events/" ⧺ x) (generate_receivers i)) same
                      (keys.1 e events))
              ],
            );
        exporter = λ h. inr (
            tenant_connected opaque i good name subs here
              (subst (λ x. names_of_tenant i x ≢ []) same (good.listed t there h)));
      }

  pub first-Links :
      (name : String) (subs : Option (List NamespacedName))
      → In (name, subs) i.relations.tenant_subscription_map
      → Links opaque i
          (generate_root_pipeline i.relations.tenants name i.dry_run_mode (events_on i))
  first-Links name subs here =
      root-All name (events_on i) (Reads opaque i) (Sends opaque i) i.relations.tenants
        i.dry_run_mode (tenant-Feeds name subs here) (λ live. inr (count-IsKey i live).0)

  bridge_connected :
      (b : Bridge) (k : String)
      → In b i.relations.bridges
      → k ≡ ("routing/bridge_" ⧺ b.name)
      → IsKey k (generate_connectors i)
  bridge_connected b k here same =
      subst (λ x. IsKey x (generate_connectors i)) (sym same)
        (routing-IsKey i _ (Service.bridge-IsKey i b here))

  bridged-Links :
      (name : String) (p : Pipeline)
      → Links opaque i p
      → (Links opaque i)
          (generate_routing_connector_for_bridges_tenant_pipeline name p i.relations.bridges)
  bridged-Links name p h = (
    All_of (Reads opaque i) _ (λ k at. elim ((bridges_sound name p i.relations.bridges k).1 at) [
      | inl old ↦ All-In (Reads opaque i) _ k h.0 old
      | inr (b, here, ends, same) ↦ inr (bridge_connected b k here same)
    ]),
    All_of (Sends opaque i) _ (λ k at. elim ((bridges_sound name p i.relations.bridges k).0 at) [
      | inl old ↦ All-In (Sends opaque i) _ k h.1 old
      | inr (b, here, starts, same) ↦ inr (bridge_connected b k here same)
    ]),
  )

  transformed-Links :
      (name : String) (ts : List Tenant) (p : Pipeline)
      → Links opaque i p
      → Links opaque i (generate_transform_processor_for_tenant_pipeline name p ts)
  unfolding generate_transform_processor_for_tenant_pipeline
  transformed-Links name [] p h = h
  transformed-Links name (t ∷ ts) p h = transformed-Links name ts _ (either _ h)
    where
      either :
          (b : Bool)
          → Links opaque i p
          → (Links opaque i) (
              if b
              then record p {
                processors = p.processors ++ (("transform/" ⧺ t.spec.transform.name) ∷ []);
              }
              else p)
      either true k = k
      either false k = k

  pub root-Links :
      (name : String) (subs : Option (List NamespacedName))
      → In (name, subs) i.relations.tenant_subscription_map
      → Links opaque i (root_pipeline i name)
  unfolding root_pipeline
  root-Links name subs here =
      transformed-Links name i.relations.tenants _
        (bridged-Links name _ (first-Links name subs here))
