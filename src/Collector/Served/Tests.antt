-- ===== src/Collector/Served/Tests.antt =====
-- The configurations that are built from the samples.
use telemetry_controller.Prelude.{
  ◌≡◌, refl, sym, subst, ◌∙◌, inl, inr, arith, In, true, false, none, some, List, [], ◌∷◌, All,
  IsKey, contains, insert, starts_with, string_eq,
}
use telemetry_controller.Api.{NamespacedName, name_instance, Output, Bridge, Tenant}
use telemetry_controller.Cluster.{ok, Client}
use telemetry_controller.Cluster.Writes.{Returns}
use telemetry_controller.Extensions.{Platform}
use telemetry_controller.Sample.{Write, acme, disk, disk_name, all_name, bridge_to_globex}
use telemetry_controller.ConfGen.Service.{generate_routing_connectors}
use telemetry_controller.Collector.{build_config_input_for_collector}
use telemetry_controller.Collector.Built.{AreListable, IsOmitted, IsWellRead}
use telemetry_controller.Connectors.Routed.{Routes}
use telemetry_controller.ConfGen.{OtelColConfigInput}
use telemetry_controller.Collector.Input.{is_empty, error_or_nil, validate_config_input}
use telemetry_controller.Collector.Served.{valid_config-routed}
use telemetry_controller.Collector.Whole.{built_config-IsClosed}
use telemetry_controller.ConfGen.Assembly.{assemble_config}
use telemetry_controller.ConfGen.Assembly.Closed.{IsClosed}
use telemetry_controller.Collector.Checks.{
  unless, collect, bridge_errors, tenant_errors, subscription_errors, validate_tenants,
  validate_subscriptions_and_bridges,
}
use telemetry_controller.Collector.Samples.{named, cluster, agent}

-- The cluster's only tenant.
abbrev listed : Tenant
listed = record acme { status = record acme.status { subscriptions = some (all_name ∷ []) } }

listed-AreListable : AreListable (listed ∷ [])
listed-AreListable = record {
  distinct = λ t u at there same. only t at ∙ sym (only u there);
  subscriptions = λ t at.
      subst (λ x. IsOmitted (let st = x.status in st.subscriptions)) (sym (only t at))
        (λ e. ground (arith, e));
  namespaces = λ t at.
      subst (λ x. IsOmitted (let st = x.status in st.log_source_namespaces)) (sym (only t at))
        (λ e. ground (arith, e));
}
  where
    only : (t : Tenant) → In t (listed ∷ []) → t ≡ listed
    only t (inl e) = e
    only t (inr h) = absurd h

cluster-IsWellRead : IsWellRead cluster
cluster-IsWellRead = record {
  tenants = λ s. record { from = λ w. listed-AreListable };
  subscriptions = λ n. record { from = λ w. refl };
  outputs = λ n. record { from = λ w e. ground (arith, e) };
}

abbrev linux : Platform
linux = record { goos = "linux"; windows_directory = "" }

built_config-IsClosed_example :
    Returns
      (λ i. IsClosed (assemble_config (λ text. "[REDACTED]") linux i).0)
      (build_config_input_for_collector cluster agent)
built_config-IsClosed_example =
    built_config-IsClosed cluster cluster-IsWellRead (λ text. "[REDACTED]") linux agent

-- A cluster that reads an output under its name, and whose tenant has a bridge to itself.
abbrev bridged : Tenant
bridged = record listed { status = record listed.status { connected_bridges = some ("out" ∷ []) } }

abbrev loop : Bridge
loop = record bridge_to_globex {
  spec = record { source_tenant = "acme"; target_tenant = "acme"; condition = "true" };
}

abbrev output_at : NamespacedName → Output
output_at n = record disk { namespace = n.namespace; name = n.name }

abbrev wired : Client (List Write)
wired = record cluster {
  get_output = λ n w. (ok (output_at n), w);
  get_bridge = λ n w. (ok loop, w);
  list_tenants = λ s w. (ok (bridged ∷ []), w);
}

wired-IsWellRead : IsWellRead wired
wired-IsWellRead = record {
  tenants = λ s. record {
    from = λ w. record {
      distinct = λ t u at there same. only t at ∙ sym (only u there);
      subscriptions = λ t at.
          subst (λ x. IsOmitted (let st = x.status in st.subscriptions)) (sym (only t at))
            (λ e. ground (arith, e));
      namespaces = λ t at.
          subst (λ x. IsOmitted (let st = x.status in st.log_source_namespaces)) (sym (only t at))
            (λ e. ground (arith, e));
    };
  };
  subscriptions = λ n. record { from = λ w. refl };
  outputs = λ n. record { from = λ w e. ground (arith, e) };
}
  where
    only : (t : Tenant) → In t (bridged ∷ []) → t ≡ bridged
    only t (inl e) = e
    only t (inr h) = absurd h

abbrev wired_input : OtelColConfigInput
wired_input = record {
  relations = record {
    tenants = bridged ∷ [];
    subscriptions = (all_name, named all_name) ∷ [];
    bridges = loop ∷ [];
    outputs_with_secret_data =
        record { output = output_at disk_name; secret = record { entries = [] } } ∷ [];
    tenant_subscription_map = ("acme", some (all_name ∷ [])) ∷ [];
    subscription_output_map = (all_name, some (disk_name ∷ [])) ∷ [];
    allocated = true;
  };
  memory_limiter = agent.memory_limiter;
  events_to_logs = none;
  debug = true;
  dry_run_mode = false;
  is_axoflow_distribution = false;
}

wired_test : (build_config_input_for_collector wired agent []).0 ≡ ok wired_input
unfolding build_config_input_for_collector insert starts_with
wired_test = refl

valid_test : validate_config_input wired_input ≡ ok tt
unfolding validate_config_input is_empty error_or_nil validate_tenants
    validate_subscriptions_and_bridges collect bridge_errors unless contains tenant_errors
    subscription_errors
valid_test = refl

valid_config-routed_example :
    All
      (λ e.
        Routes
          (λ k. IsKey k (assemble_config (λ text. "[REDACTED]") linux wired_input).0.pipelines)
          e.1)
      (generate_routing_connectors wired_input)
valid_config-routed_example =
    valid_config-routed wired wired-IsWellRead (λ n. record { from = λ w. refl })
      (λ text. "[REDACTED]") linux agent [] wired_input wired_test valid_test
