-- ===== src/Collector.antt =====
-- pkg/resources/manager/collector_manager.go: the resources that belong to a collector, gathered
-- into the input of its configuration, and their validation.
pub mod Gathering
pub mod Consistent
pub mod Checks
pub mod Input
pub mod Rbac
pub mod Reads
pub mod Listed
pub mod Every
pub mod Fed
pub mod Held
pub mod Built
pub mod Served
pub mod Samples
pub mod Whole
pub mod Credentials
pub mod Volumes
mod Tests
use telemetry_controller.Prelude.{
  ℕ, String, Bool, true, false, not, ◌&&◌, ◌||◌, Option, none, some, List, [], ◌∷◌, ◌++◌, items,
  contains, map, insert, string_eq, ◌==◌, ◌⧺◌, if◌then◌else◌, starts_with,
}
use telemetry_controller.Api.{
  NamespacedName, string, name_instance, LabelSelector, state_failed, Output, output_name,
  OutputAuth, Subscription, subscription_name, Bridge, Tenant,
}
use telemetry_controller.Cluster.{
  Error, message, wrap, tenant_failed, Result, ok, err, Exec, pure, fail, wrapping, ◌>>=◌, Client,
  Secret, ignore_not_found,
}
use telemetry_controller.Components.{
  OutputWithSecretData, ResourceRelations, query_output_secret_with_data,
}
use telemetry_controller.Processors.{MemoryLimiter}
use telemetry_controller.Receivers.{EventsToLogs}
use telemetry_controller.ConfGen.{OtelColConfigInput}

-- What is read of v1alpha1.Collector, whose memory limiter the caller has set by SetDefaults.
pub record Collector : Type 0 where
  pub name : String
  pub control_namespace : String
  pub tenant_selector : LabelSelector
  pub debug : Option Bool
  pub dry_run_mode : Option Bool
  pub events_to_logs : Option EventsToLogs
  pub memory_limiter : MemoryLimiter
  pub image : Option String

abbrev pub Subscriptions : Type 0
Subscriptions = List (NamespacedName × Subscription)

abbrev pub NameMap : Type 0 → Type 0
NameMap K = List (K × Option (List NamespacedName))

-- What the loop over the tenants gathers.
pub record Gathered : Type 0 where
  pub subscriptions : Subscriptions
  pub bridges : List Bridge
  pub tenant_subscription_map : NameMap String

-- What the loop over the subscriptions gathers.
pub record Selected : Type 0 where
  pub subscription_output_map : NameMap NamespacedName
  pub outputs : List OutputWithSecretData

-- utils.DerefOrZero of a *bool
abbrev deref_or_zero : Option Bool → Bool
deref_or_zero none = false
deref_or_zero (some b) = b

no_secret : Secret
no_secret = record { entries = [] }

abbrev image_repo : String
image_repo = "ghcr.io/axoflow/axoflow-otel-collector"

-- isAxoflowDistribution
is_axoflow_distribution : String → Bool
is_axoflow_distribution image =
    image == "" || starts_with (image_repo ⧺ "/") image || starts_with (image_repo ⧺ ":") image

-- The image of the common fields, which SetDefaults sets.
image_of : Option String → String
image_of none = ""
image_of (some image) = image

pub input_of : Collector → List Tenant → Gathered → Selected → OtelColConfigInput
input_of collector tenants g r = record {
  relations = record {
    tenants = tenants;
    subscriptions = g.subscriptions;
    bridges = g.bridges;
    outputs_with_secret_data = r.outputs;
    tenant_subscription_map = g.tenant_subscription_map;
    subscription_output_map = r.subscription_output_map;
    allocated = true;
  };
  memory_limiter = collector.memory_limiter;
  events_to_logs = collector.events_to_logs;
  debug = deref_or_zero collector.debug;
  dry_run_mode = deref_or_zero collector.dry_run_mode;
  is_axoflow_distribution = is_axoflow_distribution (image_of collector.image);
}

module _ {W : Type 0} (c : Client W) where
  -- getTenantsMatchingSelectors
  pub get_tenants_matching_selectors : LabelSelector → Exec W (List Tenant)
  get_tenants_matching_selectors selector = elim (c.as_selector selector) [
    | err e ↦ fail e
    | ok s ↦ ignore_not_found c (c.list_tenants s)
  ]

  get_subscriptions : String → List NamespacedName → Subscriptions → Exec W Subscriptions
  get_subscriptions tenant [] m = pure m
  get_subscriptions tenant (n ∷ ns) m = do
    s ← wrapping ("failed getting subscriptions for tenant " ⧺ tenant) (c.get_subscription n)
    get_subscriptions tenant ns (insert n s m)

  get_bridges : String → List String → Exec W (List Bridge)
  get_bridges tenant [] = pure []
  get_bridges tenant (n ∷ ns) = do
    b ← wrapping ("failed getting bridges for tenant " ⧺ tenant) (c.get_bridge n)
    rest ← get_bridges tenant ns
    pure (b ∷ rest)

  -- A round of the loop over the tenants, for one that has not failed.
  gather_tenant : Tenant → Gathered → Exec W Gathered
  gather_tenant t g = do
    subscriptions ← get_subscriptions t.name (items t.status.subscriptions) g.subscriptions
    bridges ← get_bridges t.name (items t.status.connected_bridges)
    pure (record {
      subscriptions = subscriptions;
      bridges = g.bridges ++ bridges;
      tenant_subscription_map = insert t.name t.status.subscriptions g.tenant_subscription_map;
    })

  unless_failed : Tenant → Gathered → Exec W Gathered
  unless_failed t g =
      if t.status.state == state_failed then fail tenant_failed else gather_tenant t g

  pub gather_tenants : List Tenant → Gathered → Exec W Gathered
  gather_tenants [] g = pure g
  gather_tenants (t ∷ ts) g = do g' ← unless_failed t g; gather_tenants ts g'

  secret_of_output : Output → Option OutputAuth → Exec W Secret
  secret_of_output o none = pure no_secret
  secret_of_output o (some a) =
      wrapping ("failed querying output secret for output " ⧺ string (output_name o))
        (query_output_secret_with_data c a)

  get_outputs : NamespacedName → List NamespacedName → Exec W (List OutputWithSecretData)
  get_outputs s [] = pure []
  get_outputs s (n ∷ ns) = do
    o ← wrapping ("failed getting outputs for subscription " ⧺ string s) (c.get_output n)
    secret ← secret_of_output o (let spec = o.spec in spec.authentication)
    rest ← get_outputs s ns
    pure (record { output = o; secret = secret } ∷ rest)

  -- The loop over the subscriptions, in the order of the map.
  pub select_outputs : Subscriptions → Selected → Exec W Selected
  select_outputs [] r = pure r
  select_outputs ((n, s) ∷ rest) r = do
    outputs ← get_outputs (subscription_name s) (items s.status.outputs)
    select_outputs rest (record {
      subscription_output_map =
          insert (subscription_name s) s.status.outputs r.subscription_output_map;
      outputs = r.outputs ++ outputs;
    })

  build_from : Collector → List Tenant → Exec W OtelColConfigInput
  build_from collector tenants = do
    g ←
        gather_tenants tenants
          (record { subscriptions = []; bridges = []; tenant_subscription_map = [] })
    r ← select_outputs g.subscriptions (record { subscription_output_map = []; outputs = [] })
    pure (input_of collector tenants g r)

  -- BuildConfigInputForCollector
  unfoldable pub build_config_input_for_collector : Collector → Exec W OtelColConfigInput
  unfolding build_from input_of gather_tenants unless_failed gather_tenant get_subscriptions
      get_bridges select_outputs get_outputs secret_of_output get_tenants_matching_selectors
      is_axoflow_distribution image_of no_secret
  build_config_input_for_collector collector = do
    tenants ←
        wrapping "failed listing tenants" (get_tenants_matching_selectors collector.tenant_selector)
    build_from collector tenants
