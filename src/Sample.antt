-- ===== src/Sample.antt =====
-- A cluster for the tests: fixed resources to read, and the list of what was written.
use telemetry_controller.Prelude.{String, Bool, true, false, none, some, List, [], ◌∷◌, All}
use telemetry_controller.Api.{NamespacedName, Output, Subscription, Bridge, Tenant, Transform}
use telemetry_controller.Cluster.{Error, client, ok, err, Client}
use telemetry_controller.Cluster.Writes.{Allows}

pub data Write : Type 0 where
  output_written : Output → Write
  subscription_written : Subscription → Write
  bridge_written : Bridge → Write
  tenant_written : Tenant → Write

abbrev pub no_transform : Transform
no_transform = record {
  name = "";
  flatten_data = false;
  error_mode = "";
  trace_statements = [];
  metric_statements = [];
  log_statements = [];
}

abbrev pub acme : Tenant
acme = record {
  name = "acme";
  spec = record {
    subscription_namespace_selectors = "all" ∷ [];
    log_source_namespace_selectors = "all" ∷ [];
    select_from_all_namespaces = false;
    transform = no_transform;
    route_config = record { default_pipelines = []; error_mode = "" };
    persistence_config = record { enable_file_storage = false; directory = "" };
  };
  status = record {
    subscriptions = none;
    log_source_namespaces = none;
    connected_bridges = none;
    state = "";
    problems = none;
    problems_count = 0;
  };
}

abbrev pub file_output : String → String → Output
file_output name tenant = record {
  namespace = "web";
  name = name;
  spec = record {
    otlp_grpc = none;
    fluentforward = none;
    otlp_http = none;
    file = some (record {
      path = "/tmp/logs";
      append = false;
      rotation = none;
      format_type = "";
      encoding = none;
      compression = "";
      flush_interval = none;
      group_by = none;
    });
    elasticsearch = none;
    aws_s3 = none;
    authentication = none;
    batch = some (record {
      timeout = "1s";
      send_batch_size = 10;
      send_batch_max_size = 0;
      metadata_keys = none;
      metadata_cardinality_limit = 0;
    });
  };
  status = record { tenant = tenant; state = ""; problems = none; problems_count = 0 };
}

abbrev pub disk : Output
disk = file_output "disk" ""

abbrev pub foreign : Output
foreign = file_output "foreign" "globex"

abbrev pub disk_name : NamespacedName
disk_name = record { namespace = "web"; name = "disk" }

abbrev pub foreign_name : NamespacedName
foreign_name = record { namespace = "web"; name = "foreign" }

abbrev pub subscription_of : String → Subscription
subscription_of name = record {
  namespace = "web";
  name = name;
  spec = record { condition = "true"; outputs = disk_name ∷ foreign_name ∷ [] };
  status = record {
    tenant = "acme";
    outputs = none;
    state = "";
    problems = none;
    problems_count = 0;
  };
}

abbrev pub all_logs : Subscription
all_logs = subscription_of "all"

abbrev pub all_name : NamespacedName
all_name = record { namespace = "web"; name = "all" }

abbrev pub bridge_to_globex : Bridge
bridge_to_globex = record {
  name = "out";
  spec = record { source_tenant = "acme"; target_tenant = "globex"; condition = "true" };
  status = record { state = ""; problems = none; problems_count = 0 };
}

abbrev error_text : Error → String
error_text e = "failed"

-- The error of the sample's client says that an object is not found.
abbrev missing : Error → Bool
missing (client s) = true
missing _ = false

-- The client, with what it does for each write.
abbrev pub sample_with : {W : Type 0} → (Write → W → W) → Client W
sample_with put = record {
  is_not_found = missing;
  is_conflict = λ e. false;
  text = error_text;
  as_selector = λ s. ok s;
  list_namespaces = λ s w. (ok (record { name = "web" } ∷ []), w);
  list_tenants = λ s w. (ok (acme ∷ []), w);
  list_outputs_in = λ n w. (ok (disk ∷ foreign ∷ []), w);
  list_subscriptions_in = λ n w. (ok (all_logs ∷ []), w);
  list_outputs_of = λ n w. (ok [], w);
  list_subscriptions_of = λ n w. (ok (all_logs ∷ []), w);
  list_bridges_from = λ n w. (ok (bridge_to_globex ∷ []), w);
  list_bridges_to = λ n w. (err (client "not found"), w);
  list_tenants_named = λ n w. (ok [], w);
  get_tenant = λ n w. (ok (record acme { name = n }), w);
  get_output = λ n w. (ok disk, w);
  get_subscription = λ n w. (ok all_logs, w);
  get_bridge = λ n w. (ok bridge_to_globex, w);
  get_secret = λ r w. (ok (record { entries = ("username", "u") ∷ [] }), w);
  update_output = λ o w. (ok tt, put (output_written o) w);
  update_subscription = λ s w. (ok tt, put (subscription_written s) w);
  update_bridge = λ b w. (ok tt, put (bridge_written b) w);
  update_tenant = λ t w. (ok tt, put (tenant_written t) w);
}

abbrev pub sample : Client (List Write)
sample = sample_with (λ x w. x ∷ w)

module _ (may_output : Output → Type 0) (may_subscription : Subscription → Type 0)
    (may_bridge : Bridge → Type 0) (may_tenant : Tenant → Type 0) where
  abbrev pub May : Write → Type 0
  May (output_written o) = may_output o
  May (subscription_written s) = may_subscription s
  May (bridge_written b) = may_bridge b
  May (tenant_written t) = may_tenant t

  -- What may be written keeps the property.
  pub sample_with-Allows :
      {W : Type 0} (put : Write → W → W) (P : W → Type 0)
      (kept : (x : Write) → May x → (w : W) → P w → P (put x w))
      → Allows (sample_with put) P may_output may_subscription may_bridge may_tenant
  sample_with-Allows put P kept = record {
    list_namespaces = λ _. record { at = λ w h. h };
    list_tenants = λ _. record { at = λ w h. h };
    list_outputs_in = λ _. record { at = λ w h. h };
    list_subscriptions_in = λ _. record { at = λ w h. h };
    list_outputs_of = λ _. record { at = λ w h. h };
    list_subscriptions_of = λ _. record { at = λ w h. h };
    list_bridges_from = λ _. record { at = λ w h. h };
    list_bridges_to = λ _. record { at = λ w h. h };
    list_tenants_named = λ _. record { at = λ w h. h };
    get_tenant = λ _. record { at = λ w h. h };
    get_output = λ _. record { at = λ w h. h };
    get_subscription = λ _. record { at = λ w h. h };
    get_bridge = λ _. record { at = λ w h. h };
    get_secret = λ _. record { at = λ w h. h };
    update_output = λ o m. record { at = λ w h. kept (output_written o) m w h };
    update_subscription = λ s m. record { at = λ w h. kept (subscription_written s) m w h };
    update_bridge = λ b m. record { at = λ w h. kept (bridge_written b) m w h };
    update_tenant = λ t m. record { at = λ w h. kept (tenant_written t) m w h };
  }

  -- What was written is what may be written.
  pub sample-Allows : Allows sample (All May) may_output may_subscription may_bridge may_tenant
  sample-Allows = sample_with-Allows (λ x w. x ∷ w) (All May) (λ x m w h. (m, h))
