-- ===== src/Api/Tenants.antt =====
-- api/telemetry/v1alpha1/tenant_types.go. A label selector of the Kubernetes library is handed on
-- unread, and stands as a text.
use telemetry_controller.Prelude.{ℕ, String, Bool, Option, some, List, [], items, length}
use telemetry_controller.Api.Names.{NamespacedName, State}

abbrev pub LabelSelector : Type 0
LabelSelector = String

pub record TransformStatement : Type 0 where
  pub context : String
  pub conditions : List String
  pub statements : List String
  pub error_mode : String

pub record Transform : Type 0 where
  pub name : String
  pub flatten_data : Bool
  pub error_mode : String
  pub trace_statements : List TransformStatement
  pub metric_statements : List TransformStatement
  pub log_statements : List TransformStatement

pub record RouteConfig : Type 0 where
  pub default_pipelines : List String
  pub error_mode : String

pub record PersistenceConfig : Type 0 where
  pub enable_file_storage : Bool
  pub directory : String

pub record TenantSpec : Type 0 where
  pub subscription_namespace_selectors : List LabelSelector
  pub log_source_namespace_selectors : List LabelSelector
  pub select_from_all_namespaces : Bool
  pub transform : Transform
  pub route_config : RouteConfig
  pub persistence_config : PersistenceConfig

pub record TenantStatus : Type 0 where
  pub subscriptions : Option (List NamespacedName)
  pub log_source_namespaces : Option (List String)
  pub connected_bridges : Option (List String)
  pub state : State
  pub problems : Option (List String)
  pub problems_count : ℕ

pub record Tenant : Type 0 where
  pub name : String
  pub spec : TenantSpec
  pub status : TenantStatus

-- Tenant.SetProblems
abbrev pub set_tenant_problems : Option (List String) → Tenant → Tenant
set_tenant_problems ps t = record t {
  status = record t.status { problems = ps; problems_count = length (items ps) };
}

-- Tenant.ClearProblems
abbrev pub clear_tenant_problems : Tenant → Tenant
clear_tenant_problems t = set_tenant_problems (some []) t

-- tenant.Status.State = s
abbrev pub set_tenant_state : State → Tenant → Tenant
set_tenant_state s t = record t { status = record t.status { state = s } }
