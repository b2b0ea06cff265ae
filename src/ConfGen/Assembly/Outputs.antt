-- ===== src/ConfGen/Assembly/Outputs.antt =====
-- otel_conf_gen.go: what the pipelines of outputs and metrics read from and write to.
use telemetry_controller.Prelude.{
  String, ◌≡◌, refl, sym, subst, inl, inr, Bool, true, false, some, List, [], ◌∷◌, ◌++◌, All,
  All-append, In, IsKey, string_eq, ◌==◌, if◌then◌else◌,
}
use telemetry_controller.Api.{NamespacedName, name_instance, Output, output_name}
use telemetry_controller.Components.{find_outputs_for_subscription, get_exporter_name_for_output}
use telemetry_controller.Components.Tenants.{find_tenant_for_output_found}
use telemetry_controller.Pipelines.{generate_pipeline, generate_metrics_pipelines, metrics_pipeline}
use telemetry_controller.ConfGen.{OtelColConfigInput}
use telemetry_controller.ConfGen.Service.{
  names_of_tenant, routing_subscription, output_exporters, output_pipeline_processors, find_output,
}
use telemetry_controller.ConfGen.Service.Keys.{names_of_tenant-In}
use telemetry_controller.ConfGen.Service.Parts.{find_output_named}
use telemetry_controller.ConfGen.Assembly.{generate_exporters, generate_connectors}
use telemetry_controller.ConfGen.Assembly.Connected.{count-IsKey, bytes-IsKey}
use telemetry_controller.ConfGen.Assembly.Exported.{metrics-IsKey, debug-IsKey, output-IsKey}
use telemetry_controller.ConfGen.Assembly.Resolved.{
  IsResolved, Sends, Links, generate_pipeline-Links, subscription_connected,
}

module _ (opaque : String → String) (i : OtelColConfigInput) (good : IsResolved i) where
  -- The exporter of an output is there, since a tenant is found for it.
  exporter-IsKey :
      (name : String) (s n : NamespacedName) (o : Output)
      → In s (names_of_tenant i name)
      → In n (find_outputs_for_subscription i.relations s)
      → find_output n i.relations.outputs_with_secret_data ≡ some o
      → i.dry_run_mode ≡ false
      → (get_exporter_name_for_output o == "") ≡ false
      → IsKey (get_exporter_name_for_output o) (generate_exporters opaque i)
  exporter-IsKey name s n o at out found live named =
      let (subs, here, inside) = names_of_tenant-In i name s at in
      let (x, there, same, called) =
        find_output_named i n o i.relations.outputs_with_secret_data found in
      let (t, owned) =
        find_tenant_for_output_found i.relations (output_name x.output) s name subs good.known here
          inside (subst (λ k. In k (find_outputs_for_subscription i.relations s)) called out) in
      subst (λ y. IsKey (get_exporter_name_for_output y) (generate_exporters opaque i)) same
        (output-IsKey opaque i x t there owned live
          (subst (λ y. (get_exporter_name_for_output y == "") ≡ false) (sym same) named))

  output_exporters-Sends :
      (name : String) (s n : NamespacedName) (o : Output)
      → In s (names_of_tenant i name)
      → In n (find_outputs_for_subscription i.relations s)
      → find_output n i.relations.outputs_with_secret_data ≡ some o
      → All (Sends opaque i) (output_exporters i o)
  unfolding output_exporters
  output_exporters-Sends name s n o at out found = mode i.dry_run_mode refl
    where
      debugging : (b : Bool) → i.debug ≡ b → All (Sends opaque i) (if b then "debug" ∷ [] else [])
      debugging true on = (inl (debug-IsKey opaque i (inr on)), tt)
      debugging false off = tt

      bytes :
          (b : Bool)
          → i.is_axoflow_distribution ≡ b
          → i.dry_run_mode ≡ false
          → All (Sends opaque i) (if b then "bytes/exporter" ∷ [] else [])
      bytes true on live = (inr (bytes-IsKey i live on), tt)
      bytes false off live = tt

      counted : Bool → List String
      counted b =
          if b
          then []
          else get_exporter_name_for_output o
            ∷ "count/output_metrics"
            ∷ (if i.is_axoflow_distribution then "bytes/exporter" ∷ [] else [])

      named :
          (b : Bool)
          → (get_exporter_name_for_output o == "") ≡ b
          → i.dry_run_mode ≡ false
          → All (Sends opaque i) (counted b)
      named true unnamed live = tt
      named false named' live = (
        inl (exporter-IsKey name s n o at out found live named'),
        (inr (count-IsKey i live).1, bytes i.is_axoflow_distribution refl live),
      )

      mode :
          (b : Bool)
          → i.dry_run_mode ≡ b
          → All (Sends opaque i) (
              if b
              then "debug" ∷ []
              else ((if i.debug then "debug" ∷ [] else [])
                  ++ counted (get_exporter_name_for_output o == "")))
      mode true dry = (inl (debug-IsKey opaque i (inl dry)), tt)
      mode false live =
          All-append (Sends opaque i) (if i.debug then "debug" ∷ [] else []) _
            (debugging i.debug refl) (named (get_exporter_name_for_output o == "") refl live)

  pub output-Links :
      (name : String) (s n : NamespacedName) (o : Output)
      → In s (names_of_tenant i name)
      → In n (find_outputs_for_subscription i.relations s)
      → find_output n i.relations.outputs_with_secret_data ≡ some o
      → (Links opaque i) (
          generate_pipeline
            (routing_subscription s ∷ [])
            (output_pipeline_processors o)
            (output_exporters i o))
  output-Links name s n o at out found =
      generate_pipeline-Links opaque i (routing_subscription s ∷ []) (output_pipeline_processors o)
        (output_exporters i o) (inr (subscription_connected opaque i good name s at), tt)
        (output_exporters-Sends name s n o at out found)

  pub metrics-Links :
      i.dry_run_mode ≡ false
      → All (λ e. (Links opaque i) e.1) (generate_metrics_pipelines i.is_axoflow_distribution)
  unfolding generate_metrics_pipelines metrics_pipeline
  metrics-Links live = counted i.is_axoflow_distribution refl
    where
      of_receiver :
          (k : String) → IsKey k (generate_connectors i) → Links opaque i (metrics_pipeline k)
      of_receiver k h = ((inr h, tt), (inl (metrics-IsKey opaque i live), tt))

      counted :
          (b : Bool)
          → i.is_axoflow_distribution ≡ b
          → All (λ e. (Links opaque i) e.1) (generate_metrics_pipelines b)
      counted true on = (
        of_receiver "count/tenant_metrics" (count-IsKey i live).0,
        (
          of_receiver "count/output_metrics" (count-IsKey i live).1,
          (of_receiver "bytes/exporter" (bytes-IsKey i live on), tt),
        ),
      )
      counted false off = (
        of_receiver "count/tenant_metrics" (count-IsKey i live).0,
        (of_receiver "count/output_metrics" (count-IsKey i live).1, tt),
      )
