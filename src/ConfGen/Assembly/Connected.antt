-- ===== src/ConfGen/Assembly/Connected.antt =====
-- otel_conf_gen.go: which connectors the configuration has.
use telemetry_controller.Prelude.{
  String, ◌≡◌, refl, inl, inr, true, false, IsKey, copy, copy_keeps-IsKey, copy_adds-IsKey,
  map-IsKey, lookup, insert, string_eq, Bool-cases,
}
use telemetry_controller.Connectors.Constant.{generate_count_connectors, generate_bytes_connectors}
use telemetry_controller.ConfGen.{OtelColConfigInput}
use telemetry_controller.ConfGen.Service.{generate_routing_connectors}
use telemetry_controller.ConfGen.Assembly.{constant, routing, constants, generate_connectors}

module _ (i : OtelColConfigInput) where
  pub routing-IsKey :
      (k : String) → IsKey k (generate_routing_connectors i) → IsKey k (generate_connectors i)
  unfolding generate_connectors
  routing-IsKey k h = copy_adds-IsKey k _ _ (map-IsKey routing k (generate_routing_connectors i) h)

  constant-IsKey : (k : String) → IsKey k (constants i) → IsKey k (generate_connectors i)
  unfolding generate_connectors
  constant-IsKey k h = copy_keeps-IsKey k _ _ (map-IsKey constant k (constants i) h)

  -- The constant connectors, of a run that is not dry.
  pub count-IsKey :
      i.dry_run_mode ≡ false
      → IsKey "count/tenant_metrics" (generate_connectors i)
        × IsKey "count/output_metrics" (generate_connectors i)
  unfolding constants lookup copy insert generate_count_connectors generate_bytes_connectors
  count-IsKey live = elim (Bool-cases i.is_axoflow_distribution) [
    | inl axoflow ↦ (
      constant-IsKey _ (rw (live, axoflow) (_, refl)),
      constant-IsKey _ (rw (live, axoflow) (_, refl)),
    )
    | inr plain ↦ (
      constant-IsKey _ (rw (live, plain) (_, refl)),
      constant-IsKey _ (rw (live, plain) (_, refl)),
    )
  ]

  pub bytes-IsKey :
      i.dry_run_mode ≡ false
      → i.is_axoflow_distribution ≡ true
      → IsKey "bytes/exporter" (generate_connectors i)
  unfolding constants lookup copy insert generate_count_connectors generate_bytes_connectors
  bytes-IsKey live axoflow = constant-IsKey "bytes/exporter" (rw (live, axoflow) (_, refl))
