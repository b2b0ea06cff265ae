-- ===== src/CollectorController/Objects.antt =====
-- What a reconciliation of a collector writes and calls.
use telemetry_controller.Prelude.{String, List, string_eq, nat_eq, option_instance, list_instance}
use telemetry_controller.Api.{Tenant}
use telemetry_controller.Cluster.{Result, Exec, Client}
use telemetry_controller.Components.{OutputWithSecretData}
use telemetry_controller.Extensions.{Platform}
use telemetry_controller.ConfGen.Assembly.{OtelConfig}
use telemetry_controller.Collector.{Collector}
use telemetry_controller.Collector.Credentials.{AuthSecret}
use telemetry_controller.Collector.Rbac.{ClusterRole, ServiceAccount, ClusterRoleBinding}
use telemetry_controller.CollectorController.Resource.{CollectorStatus, CollectorResource}

-- What OtelCollector builds an OpenTelemetryCollector of.
pub record OtelCollector : Type 0 where
  pub collector : Collector
  pub otel_config : OtelConfig
  pub additional_args : List (String × String)
  pub tenants : List Tenant
  pub outputs : List OutputWithSecretData
  pub sa_name : String

-- The objects that are reconciled.
pub data Desired : Type 0 where
  role : ClusterRole → Desired
  account : ServiceAccount → Desired
  binding : ClusterRoleBinding → Desired
  secret : AuthSecret → Desired
  agent : OtelCollector → Desired

-- What the controller calls beyond the client of the managers: the resource that it reconciles, and
-- other libraries. ReconcileResource creates an object or updates it; the validator decodes a
-- configuration and runs the collector's own validation; `opaque` is how configopaque marshals.
pub record Operator (W : Type 0) : Type 0 where
  pub client : Client W
  pub get_collector : String → Exec W CollectorResource
  pub update_collector : String → CollectorStatus → Exec W (Unit {0})
  pub validate_assembled_config : OtelConfig → Result (Unit {0})
  pub set_controller_reference : Desired → Result (Unit {0})
  pub reconcile_resource : Desired → Exec W (Unit {0})
  pub opaque : String → String
  pub platform : Platform
