-- ===== src/ConfGen/Assembly/Exported.antt =====
-- otel_conf_gen.go: which exporters the configuration has.
use telemetry_controller.Prelude.{
  String, ◌≡◌, refl, sym, subst, inl, inr, ◌⊎◌, true, false, [], In, IsKey, copy, copy_keeps-IsKey,
  copy_adds-IsKey, insert, lookup, Option-cases, Bool-cases, string_eq, ◌==◌, arith, if◌then◌else◌,
}
use telemetry_controller.Api.{output_name, Tenant}
use telemetry_controller.Cluster.{ok}
use telemetry_controller.Components.{
  OutputWithSecretData, find_tenant_for_output, get_exporter_name_for_output,
}
use telemetry_controller.Exporters.{
  generate_debug_exporters, generate_metrics_exporters, generate_otlp_grpc_exporters,
  generate_otlp_http_exporters, generate_fluentforward_exporters, generate_file_exporter,
  generate_elasticsearch_exporters, generate_aws_s3_exporters,
}
use telemetry_controller.Exporters.Entries.{
  otlp_grpc_entry, otlp_http_entry, fluentforward_entry, file_entry, elasticsearch_entry,
  aws_s3_entry,
}
use telemetry_controller.Exporters.Stored.{
  generate-IsKey, otlp_grpc-Adds, otlp_http-Adds, fluentforward-Adds, file-Adds, elasticsearch-Adds,
  aws_s3-Adds, name_of_fluentforward, name_of_file, name_of_none,
}
use telemetry_controller.ConfGen.{OtelColConfigInput}
use telemetry_controller.ConfGen.Assembly.{live_exporters, generate_exporters}

module _ (opaque : String → String) (i : OtelColConfigInput) where
  abbrev Live : String → Type 0
  Live k = IsKey k (live_exporters opaque i)

  -- What each generator stores is kept by the copies that follow.
  from_metrics : (k : String) → IsKey k generate_metrics_exporters → Live k
  unfolding live_exporters
  from_metrics k h = copy_keeps-IsKey k _ _ (
      copy_keeps-IsKey k _ _ (
        copy_keeps-IsKey k _ _ (
          copy_keeps-IsKey k _ _
            (copy_keeps-IsKey k _ _ (copy_keeps-IsKey k _ _ (copy_adds-IsKey k _ _ h))))))

  from_debug :
      (k : String) → IsKey k (if i.debug then copy [] generate_debug_exporters else []) → Live k
  unfolding live_exporters
  from_debug k h = copy_keeps-IsKey k _ _ (
      copy_keeps-IsKey k _ _ (
        copy_keeps-IsKey k _ _ (
          copy_keeps-IsKey k _ _
            (copy_keeps-IsKey k _ _ (copy_keeps-IsKey k _ _ (copy_keeps-IsKey k _ _ h))))))

  from_otlp_grpc : (k : String) → IsKey k (generate_otlp_grpc_exporters i.relations) → Live k
  unfolding live_exporters
  from_otlp_grpc k h = copy_keeps-IsKey k _ _ (
      copy_keeps-IsKey k _ _ (
        copy_keeps-IsKey k _ _
          (copy_keeps-IsKey k _ _ (copy_keeps-IsKey k _ _ (copy_adds-IsKey k _ _ h)))))

  from_otlp_http : (k : String) → IsKey k (generate_otlp_http_exporters i.relations opaque) → Live k
  unfolding live_exporters
  from_otlp_http k h = copy_keeps-IsKey k _ _ (
      copy_keeps-IsKey k _ _
        (copy_keeps-IsKey k _ _ (copy_keeps-IsKey k _ _ (copy_adds-IsKey k _ _ h))))

  from_fluentforward :
      (k : String)
      → IsKey k (generate_fluentforward_exporters i.relations i.is_axoflow_distribution)
      → Live k
  unfolding live_exporters
  from_fluentforward k h =
      copy_keeps-IsKey k _ _
        (copy_keeps-IsKey k _ _ (copy_keeps-IsKey k _ _ (copy_adds-IsKey k _ _ h)))

  from_file : (k : String) → IsKey k (generate_file_exporter i.relations) → Live k
  unfolding live_exporters
  from_file k h = copy_keeps-IsKey k _ _ (copy_keeps-IsKey k _ _ (copy_adds-IsKey k _ _ h))

  from_elasticsearch :
      (k : String) → IsKey k (generate_elasticsearch_exporters i.relations) → Live k
  unfolding live_exporters
  from_elasticsearch k h = copy_keeps-IsKey k _ _ (copy_adds-IsKey k _ _ h)

  from_aws_s3 : (k : String) → IsKey k (generate_aws_s3_exporters i.relations) → Live k
  unfolding live_exporters
  from_aws_s3 k h = copy_adds-IsKey k _ _ h

  module _ (o : OutputWithSecretData) (here : In o i.relations.outputs_with_secret_data)
      (t : Tenant) (found : find_tenant_for_output i.relations (output_name o.output) ≡ ok t) where
    abbrev name : String
    name = get_exporter_name_for_output o.output

    -- By the first kind that is set.
    output-Live : (name == "") ≡ false → Live name
    unfolding generate_otlp_grpc_exporters generate_otlp_http_exporters
        generate_fluentforward_exporters generate_file_exporter generate_elasticsearch_exporters
        generate_aws_s3_exporters
    output-Live named = elim (Option-cases o.output.spec.otlp_grpc) [
      | inr (a, e1) ↦ from_otlp_grpc name (
          generate-IsKey (otlp_grpc_entry i.relations) o name _ [] here
            (otlp_grpc-Adds i.relations o.output t found a e1))
      | inl e1 ↦ elim (Option-cases o.output.spec.otlp_http) [
        | inr (a, e2) ↦ from_otlp_http name (
            generate-IsKey (otlp_http_entry opaque i.relations) o name _ [] here
              (otlp_http-Adds i.relations o.output t found opaque a e2))
        | inl e2 ↦ elim (Option-cases o.output.spec.fluentforward) [
          | inr (a, e3) ↦ subst Live (sym (name_of_fluentforward o.output a e1 e2 e3)) (
              from_fluentforward _ (
                generate-IsKey (fluentforward_entry i.is_axoflow_distribution i.relations) o _ _ []
                  here
                  (fluentforward-Adds i.relations o.output t found i.is_axoflow_distribution a e3)))
          | inl e3 ↦ elim (Option-cases o.output.spec.file) [
            | inr (f, e4) ↦
                subst Live (sym (name_of_file o.output f e1 e2 e3 e4))
                  (from_file _ (generate-IsKey file_entry o _ _ [] here (file-Adds o.output f e4)))
            | inl e4 ↦ elim (Option-cases o.output.spec.elasticsearch) [
              | inr (a, e5) ↦ from_elasticsearch name (
                  generate-IsKey (elasticsearch_entry i.relations) o name _ [] here
                    (elasticsearch-Adds i.relations o.output t found a e5))
              | inl e5 ↦ elim (Option-cases o.output.spec.aws_s3) [
                | inr (a, e6) ↦ from_aws_s3 name (
                    generate-IsKey (aws_s3_entry i.relations) o name _ [] here
                      (aws_s3-Adds i.relations o.output t found a e6))
                | inl e6 ↦ absurd (unnamed (name_of_none o.output e1 e2 e3 e4 e5 e6) named)
              ]
            ]
          ]
        ]
      ]
    ]
      where
        unnamed : name ≡ "" → (name == "") ≡ false → ⊥
        unnamed e h = ground (arith, string_eq.beq_iff name "")

  -- The exporters of a run that is not dry: for metrics, for debugging, and for the outputs for
  -- which a tenant is found.
  pub metrics-IsKey :
      i.dry_run_mode ≡ false
      → IsKey "prometheus/message_metrics_exporter" (generate_exporters opaque i)
  unfolding generate_exporters generate_metrics_exporters lookup
  metrics-IsKey live = rw live (from_metrics "prometheus/message_metrics_exporter" (_, refl))

  pub debug-IsKey :
      (i.dry_run_mode ≡ true) ⊎ (i.debug ≡ true) → IsKey "debug" (generate_exporters opaque i)
  unfolding generate_exporters generate_debug_exporters lookup copy insert
  debug-IsKey h = elim (Bool-cases i.dry_run_mode) [
    | inl dry ↦ rw dry (_, refl)
    | inr live ↦ rw live (from_debug "debug" (rw (debugging live) (_, refl)))
  ]
    where
      debugging : i.dry_run_mode ≡ false → i.debug ≡ true
      debugging live = ground (arith, h)

  pub output-IsKey :
      (o : OutputWithSecretData) (t : Tenant)
      → In o i.relations.outputs_with_secret_data
      → find_tenant_for_output i.relations (output_name o.output) ≡ ok t
      → i.dry_run_mode ≡ false
      → (get_exporter_name_for_output o.output == "") ≡ false
      → IsKey (get_exporter_name_for_output o.output) (generate_exporters opaque i)
  unfolding generate_exporters
  output-IsKey o t here found live named = rw live (output-Live o here t found named)
