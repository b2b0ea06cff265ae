-- ===== src/CollectorController/Tests.antt =====
-- Reconciliations of a collector of the sample's cluster.
use telemetry_controller.Prelude.{
  ◌↔◌, String, ◌≡◌, refl, ◌⊎◌, true, false, none, some, List, [], ◌∷◌, All, insert, copy,
  option_beq, string_eq,
}
use telemetry_controller.Api.{NamespacedName, Subscription, state_failed}
use telemetry_controller.Cluster.{Error, message, multierror, more, no_more, ok, err, Client}
use telemetry_controller.Sample.{
  Write, sample_with, sample_with-Allows, May, acme, disk_name, all_logs, all_name,
}
use telemetry_controller.Collector.{Collector, build_config_input_for_collector}
use telemetry_controller.Collector.Input.{
  is_empty, error_or_nil, validate_config_input, errors_is, is_no_resources,
}
use telemetry_controller.Collector.Checks.{
  unless, collect, validate_tenants, tenant_errors, subscription_errors,
  validate_subscriptions_and_bridges,
}
use telemetry_controller.Processors.{generate_metrics_processors}
use telemetry_controller.ConfGen.{OtelColConfigInput, generate_processors}
use telemetry_controller.ConfGen.Gates.{assemble_additional_args}
use telemetry_controller.ConfGen.Assembly.{assemble_config}
use telemetry_controller.Cluster.Writes.{Allows}
use telemetry_controller.Collector.Input.Unempty.{
  IsZero, validate_config_input-no_resources, validate_config_input_built,
}
use telemetry_controller.CollectorController.Resource.{
  CollectorResource, CollectorStatus, collector_status_eq, set_collector_problems, set_defaults,
  default_limiter,
}
use telemetry_controller.CollectorController.Objects.{Operator, Desired}
use telemetry_controller.CollectorController.Creation.{handle_collector_creation}
use telemetry_controller.CollectorController.{done, handle_collector_reconcile_error, reconcile}
use telemetry_controller.CollectorController.Reported.{
  Settled, IsDelayed, reconcile-done, reconcile-requeue_after,
}
use telemetry_controller.CollectorController.Writes.{MayStatus, MayDesired, IsReadAs, Permits}
use telemetry_controller.CollectorController.Written.{reconcile_writes}

-- What is written of a collector.
data Event : Type 0 where
  status_written : String → CollectorStatus → Event
  reconciled : Desired → Event

abbrev resource : CollectorResource
resource = record {
  name = "agent";
  spec = record {
    tenant_selector = "all";
    control_namespace = "control";
    debug = none;
    dry_run_mode = none;
    events_to_logs = none;
    memory_limiter = none;
    otel_common_fields = none;
  };
  status = record { tenants = none; state = ""; problems = none; problems_count = 0 };
}

abbrev named : NamespacedName → Subscription
named n = record all_logs {
  namespace = n.namespace;
  name = n.name;
  status = record all_logs.status { outputs = some (disk_name ∷ []) };
}

-- A cluster with one tenant, in the given state, that has one subscription.
abbrev cluster : String → Client (List Event)
cluster state = record (sample_with (λ x w. w)) {
  get_subscription = λ n w. (ok (named n), w);
  list_tenants = λ s w. (
    ok (
        record acme {
          status = record acme.status { subscriptions = some (all_name ∷ []); state = state };
        }
        ∷ []),
    w,
  );
}

abbrev operator : String → Operator (List Event)
operator state = record {
  client = cluster state;
  get_collector = λ n w. (ok resource, w);
  update_collector = λ n s w. (ok tt, status_written n s ∷ w);
  validate_assembled_config = λ c. ok tt;
  set_controller_reference = λ d. ok tt;
  reconcile_resource = λ d w. (ok tt, reconciled d ∷ w);
  opaque = λ s. "[REDACTED]";
  platform = record { goos = "linux"; windows_directory = "" };
}

reconcile-requeue_after_example :
    (r : CollectorResource) × (((operator state_failed).get_collector "agent" []).0 ≡ ok r)
    × IsDelayed (operator state_failed) r [] 20 (reconcile (operator state_failed) "agent" []).1
unfolding reconcile handle_collector_creation build_config_input_for_collector
    handle_collector_reconcile_error errors_is
reconcile-requeue_after_example = reconcile-requeue_after (operator state_failed) "agent" [] 20 refl

done_test : (reconcile (operator "") "agent" []).0 ≡ done
unfolding reconcile handle_collector_creation build_config_input_for_collector
    handle_collector_reconcile_error errors_is insert copy validate_config_input is_empty
    error_or_nil validate_tenants collect tenant_errors unless validate_subscriptions_and_bridges
    subscription_errors assemble_config assemble_additional_args generate_processors
    generate_metrics_processors collector_status_eq option_beq set_collector_problems
done_test = refl

reconcile-done_example :
    ((e : Error) × (((operator "").get_collector "agent" []).0 ≡ err e)
      × ((operator "").client.is_not_found e ≡ true))
    ⊎ ((r : CollectorResource) × (((operator "").get_collector "agent" []).0 ≡ ok r)
        × Settled (operator "") "agent" r ((operator "").get_collector "agent" []).1)
reconcile-done_example = reconcile-done (operator "") "agent" [] done_test

-- What may be written.
abbrev MayEvent : Event → Type 0
MayEvent (status_written n s) = (n ≡ "agent") × MayStatus s
MayEvent (reconciled d) =
    (k : Collector) × IsReadAs (operator "") "agent" k × MayDesired (operator "") k d

permitted : Permits (operator "") "agent" (All MayEvent)
permitted = record {
  client = sample-reads;
  get_collector = record { at = λ w h. h };
  update_collector = λ s may. record { at = λ w h. ((refl, may), h) };
  reconcile_resource = λ k d known may. record { at = λ w h. ((k, known, may), h) };
}
  where
    kept :
        (x : Write)
        → May (λ _. ⊥) (λ _. ⊥) (λ _. ⊥) (λ _. ⊥) x
        → (w : List Event) → All MayEvent w
        → All MayEvent w
    kept x may w h = h

    sample-reads : Allows (cluster "") (All MayEvent) (λ _. ⊥) (λ _. ⊥) (λ _. ⊥) (λ _. ⊥)
    sample-reads =
        let base =
          sample_with-Allows (λ _. ⊥) (λ _. ⊥) (λ _. ⊥) (λ _. ⊥) (λ x w. w) (All MayEvent) kept in
        record {
          list_namespaces = base.list_namespaces;
          list_tenants = λ _. record { at = λ w h. h };
          list_outputs_in = base.list_outputs_in;
          list_subscriptions_in = base.list_subscriptions_in;
          list_outputs_of = base.list_outputs_of;
          list_subscriptions_of = base.list_subscriptions_of;
          list_bridges_from = base.list_bridges_from;
          list_bridges_to = base.list_bridges_to;
          list_tenants_named = base.list_tenants_named;
          get_tenant = base.get_tenant;
          get_output = base.get_output;
          get_subscription = λ _. record { at = λ w h. h };
          get_bridge = base.get_bridge;
          get_secret = base.get_secret;
          update_output = base.update_output;
          update_subscription = base.update_subscription;
          update_bridge = base.update_bridge;
          update_tenant = base.update_tenant;
        }

reconcile_writes_example : All MayEvent (reconcile (operator "") "agent" []).1
reconcile_writes_example = reconcile_writes (operator "") "agent" permitted [] tt

-- An input without resources.
abbrev bare : OtelColConfigInput
bare = record {
  relations = record {
    tenants = [];
    subscriptions = [];
    bridges = [];
    outputs_with_secret_data = [];
    tenant_subscription_map = [];
    subscription_output_map = [];
    allocated = false;
  };
  memory_limiter = record {
    check_interval = "";
    memory_limit_mib = 0;
    memory_spike_limit_mib = 0;
    memory_limit_percentage = 0;
    memory_spike_percentage = 0;
  };
  events_to_logs = none;
  debug = false;
  dry_run_mode = false;
  is_axoflow_distribution = false;
}

abbrev nothing_there : Error
nothing_there = multierror (
    more (message "no tenants provided, at least one tenant must be provided") (
      more
        (message
          "no subscriptions or bridges provided, at least one subscription or bridge must be provided")
        no_more))

validate_config_input-no_resources_example :
    ((e : Error) × (validate_config_input bare ≡ err e) × (errors_is is_no_resources e ≡ true))
    ↔ IsZero bare
validate_config_input-no_resources_example = validate_config_input-no_resources bare

-- A cluster without tenants.
abbrev vacant : Client (List Event)
vacant = record (cluster "") { list_tenants = λ s w. (ok [], w) }

validate_config_input_built_example : errors_is is_no_resources nothing_there ≡ false
unfolding build_config_input_for_collector validate_config_input is_empty error_or_nil
    validate_tenants validate_subscriptions_and_bridges set_defaults
validate_config_input_built_example =
    validate_config_input_built vacant (set_defaults resource.name resource.spec) []
      (record bare {
        relations = record bare.relations { allocated = true };
        memory_limiter = default_limiter;
        is_axoflow_distribution = true;
      })
      nothing_there refl refl
