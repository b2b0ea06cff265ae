-- ===== src/Pipelines.antt =====
-- pkg/resources/otel_conf_gen/pipeline/pipeline.go: the pipelines of a collector's service.
pub mod Roots
use telemetry_controller.Prelude.{
  String, Bool, true, false, not, ◌||◌, Option, none, some, List, [], ◌∷◌, ◌++◌, keep, string_eq,
  ◌==◌, ◌⧺◌, if◌then◌else◌,
}
use telemetry_controller.Api.{Tenant}

-- otelv1beta1.Pipeline
pub record Pipeline : Type 0 where
  pub receivers : List String
  pub processors : List String
  pub exporters : List String

-- filterEmptyPipelines
unfoldable pub filter_empty_pipelines : List String → List String
filter_empty_pipelines items = keep (λ item. not (item == "")) items

unfoldable pub generate_pipeline : List String → List String → List String → Pipeline
unfolding filter_empty_pipelines
generate_pipeline receivers processors exporters = record {
  receivers = filter_empty_pipelines receivers;
  processors = filter_empty_pipelines processors;
  exporters = filter_empty_pipelines exporters;
}

-- A slice that is not nil.
abbrev is_set {ℓ} : {A : Type ℓ} → Option A → Bool
is_set none = false
is_set (some a) = true

-- What a tenant of the name adds to the receivers.
root_receivers : Bool → String → Tenant → List String
root_receivers events name t =
    if is_set t.status.log_source_namespaces || t.spec.select_from_all_namespaces
    then ("file_log/" ⧺ name) ∷ (if events then ("k8s_events/" ⧺ name) ∷ [] else [])
    else []

root_exporter : String → Tenant → String → String
root_exporter name t before =
    if is_set t.status.subscriptions then "routing/tenant_" ⧺ name ⧺ "_subscriptions" else before

-- The loop over the tenants: the receivers' names, and the exporter's, which is empty at first.
root_names : Bool → String → List Tenant → List String × String → List String × String
root_names events name [] st = st
root_names events name (t ∷ ts) (receivers, exporter) =
    let here = t.name == name in
    root_names events name ts (
      if here then receivers ++ root_receivers events name t else receivers,
      if here then root_exporter name t exporter else exporter,
    )

unfoldable pub generate_root_pipeline : List Tenant → String → Bool → Bool → Pipeline
unfolding root_names root_receivers root_exporter
generate_root_pipeline tenants name dry_run_mode events =
    let (receivers, exporter) = root_names events name tenants ([], "") in
    let processors = "k8s_attributes" ∷ ("attributes/tenant_" ⧺ name) ∷ "filter/exclude" ∷ [] in
    if dry_run_mode
    then generate_pipeline receivers processors (exporter ∷ [])
    else generate_pipeline receivers processors (exporter ∷ "count/tenant_metrics" ∷ [])

unfoldable pub metrics_pipeline : String → Pipeline
metrics_pipeline receiver = record {
  receivers = receiver ∷ [];
  processors = "deltatocumulative" ∷ "attributes/metricattributes" ∷ [];
  exporters = "prometheus/message_metrics_exporter" ∷ [];
}

unfoldable pub generate_metrics_pipelines : Bool → List (String × Pipeline)
unfolding metrics_pipeline
generate_metrics_pipelines include_output_bytes =
    let counted =
      ("metrics/tenant", metrics_pipeline "count/tenant_metrics")
      ∷ ("metrics/output", metrics_pipeline "count/output_metrics")
      ∷ [] in
    if include_output_bytes
    then counted ++ (("metrics/output_bytes", metrics_pipeline "bytes/exporter") ∷ [])
    else counted
