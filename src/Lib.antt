-- ===== src/Lib.antt =====
-- Telemetry controller: a Kubernetes operator that turns tenants, subscriptions, outputs and
-- bridges into the configuration of OpenTelemetry collectors.
--
-- The parts and how they interact. The route controller (controllers/telemetry/route_controller.go)
-- reconciles one tenant: it records the namespaces that the tenant reads logs from, takes over the
-- outputs and subscriptions that its selectors select, gives up those that they no longer select,
-- validates the outputs that subscriptions refer to, checks bridges, and writes the status of each.
-- It calls the managers of pkg/resources/manager. From the resources of a collector,
-- pkg/resources/otel_conf_gen generates its configuration: processors, receivers, extensions,
-- connectors, and the pipelines that name them. The collector manager gathers those resources and
-- checks them, and makes the secret, the variables and the volumes that the collector needs.
--
-- The files:
-- - Api and its children: api/telemetry/v1alpha1 and pkg/sdk/model/state, the resources as records,
--   with their setters and the settings of exporters. A pointer is an Option, and so is a slice
--   where the code tells nil from empty. Json and its children: the maps that encoding/json makes
--   of those settings, by their json tags.
-- - Problem: pkg/resources/problem/problem.go, the list of problems of a resource.
-- - Cluster: what is not in the repository. A Client is a record of functions over a cluster of any
--   type, one for each call of the Kubernetes API that the controllers make; each returns the
--   cluster after it, so that other actors may have changed it. Theorems hold for every client; the
--   hypotheses on one stand in their statements. An update leaves the object passed to it as it is.
--   Errors keep how they were made. Cluster/Writes says which writes a run makes: it keeps every
--   property of the cluster that the reads and the permitted writes keep. Cluster/Succeeded says
--   what a run that succeeded has done.
-- - Utils: pkg/sdk/utils/utils.go.
-- - Components: pkg/resources/otel_conf_gen/pipeline/components/common.go.
-- - TenantResources with Ownership and Validation: pkg/resources/manager/tenant_resource_manager.go,
--   and pkg/sdk/model/types.go. The objects that a handler mutates through pointers are returned as
--   it leaves them; the cache of outputs is a map that every round of the validation passes on.
-- - Bridges: pkg/resources/manager/bridge_manager.go.
-- - Route: Reconcile, its error path and its end, in route_controller.go; Route/Handlers: the three
--   handlers. Their state is the tenant beside the cluster, since what they set of the tenant stays
--   when they fail.
-- - Values: map[string]any. Pipelines, Processors, Connectors, Receivers, Extensions: the packages
--   below pkg/resources/otel_conf_gen/pipeline.
-- - Exporters and its children: pkg/resources/otel_conf_gen/pipeline/components/exporter. What
--   marshals an opaque text is a parameter, since configopaque is another library.
-- - ConfGen, ConfGen/Service, ConfGen/Gates and ConfGen/Assembly:
--   pkg/resources/otel_conf_gen/otel_conf_gen.go; Assembly holds AssembleConfig as a whole.
--   A Go map is an association list in the order in which the range visits it; the theorems hold
--   for each such list. Where DeepEqual tells a nil map from an empty one, in IsEmpty, the relations
--   carry whether their maps and the slice of their outputs were allocated.
-- - Collector: BuildConfigInputForCollector of pkg/resources/manager/collector_manager.go, with the
--   map of subscriptions visited in the order of its list. Collector/Checks: validateTenants and
--   validateSubscriptionsAndBridges, whose multierrors are lists. Collector/Credentials: AuthSecret
--   and the loop of OtelCollector over the outputs. Collector/Volumes: the volumes of the tenants
--   and the defaults of the common fields. Collector/Input: IsEmpty and ValidateConfigInput.
--   Collector/Rbac: the objects of ReconcileRBAC. Collector/Whole and Collector/Served join
--   BuildConfigInputForCollector, ValidateConfigInput and AssembleConfig.
-- - CollectorController: controllers/telemetry/collector_controller.go. Reconcile returns an outcome
--   beside the cluster: done, a delay, an error, or a panic, after which nothing is written. The
--   validator of a configuration and the reconciler of an object are parameters.
-- - Sample: a cluster for the tests, which stand in modules named Tests with the witnesses.
-- - Prelude and its children: names of the libraries, and lists, maps, texts and sorting.
--
-- Every loop of the code goes through a slice or a map and is a recursion on a list: no fuel is
-- needed, and every function is total. Sorting is by insertion, which agrees with slices.Sort
-- and slices.SortFunc on the keys; elements with the same key are equal where the code sorts.
-- Texts are ordered by code points, which is the order of their UTF-8 bytes.
--
-- Not modelled: logging; SetupWithManager; the validator, which mostly calls the collector's own
-- library; of OtelCollector in the collector manager, the volumes of file exporters, the init
-- container, the name of the node and the limit of memory; generated code; the entry point.
pub mod Prelude
pub mod Api
pub mod Problem
pub mod Cluster
pub mod Utils
pub mod Components
pub mod TenantResources
pub mod Bridges
pub mod Route
pub mod Values
pub mod Json
pub mod Exporters
pub mod Pipelines
pub mod Processors
pub mod Connectors
pub mod Receivers
pub mod Extensions
pub mod ConfGen
pub mod Sample
pub mod Collector
pub mod CollectorController
