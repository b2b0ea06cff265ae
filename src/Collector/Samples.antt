-- ===== src/Collector/Samples.antt =====
-- A cluster and a collector for the tests.
use telemetry_controller.Prelude.{true, none, some, List, [], ◌∷◌, string_eq}
use telemetry_controller.Api.{NamespacedName, name_instance, Subscription}
use telemetry_controller.Cluster.{ok, Client}
use telemetry_controller.Sample.{Write, sample, acme, disk_name, all_logs, all_name}
use telemetry_controller.Collector.{Collector}

-- A cluster that reads a subscription under its name, with one tenant that has one.
abbrev pub named : NamespacedName → Subscription
named n = record all_logs {
  namespace = n.namespace;
  name = n.name;
  status = record all_logs.status { outputs = some (disk_name ∷ []) };
}

abbrev pub cluster : Client (List Write)
cluster = record sample {
  get_subscription = λ n w. (ok (named n), w);
  list_tenants = λ s w. (
    ok (record acme { status = record acme.status { subscriptions = some (all_name ∷ []) } } ∷ []),
    w,
  );
}

abbrev pub agent : Collector
agent = record {
  name = "agent";
  control_namespace = "control";
  tenant_selector = "all";
  debug = some true;
  dry_run_mode = none;
  events_to_logs = none;
  memory_limiter = record {
    check_interval = "1s";
    memory_limit_mib = 0;
    memory_spike_limit_mib = 0;
    memory_limit_percentage = 75;
    memory_spike_percentage = 25;
  };
  image = some "otel/collector";
}
