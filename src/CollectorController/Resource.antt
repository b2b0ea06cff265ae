-- ===== src/CollectorController/Resource.antt =====
-- api/telemetry/v1alpha1/collector_types.go: the resource of a collector, as far as it is read.
use telemetry_controller.Prelude.{
  ℕ, String, ◌≡◌, ◌↔◌, arith, eq_iff, option_beq_iff, Bool, true, ◌&&◌, Option, none, some, List,
  [], ◌∷◌, items, length, string_eq, nat_eq, ◌==◌, option_instance, list_instance,
}
use telemetry_controller.Api.{LabelSelector}
use telemetry_controller.Problem.{ProblemHandler, add}
use telemetry_controller.Processors.{MemoryLimiter}
use telemetry_controller.Receivers.{EventsToLogs}
use telemetry_controller.Collector.{Collector}

-- What is read of v1alpha1.CollectorSpec; of the common fields, the image.
pub record CollectorSpec : Type 0 where
  pub tenant_selector : LabelSelector
  pub control_namespace : String
  pub debug : Option Bool
  pub dry_run_mode : Option Bool
  pub events_to_logs : Option EventsToLogs
  pub memory_limiter : Option MemoryLimiter
  pub otel_common_fields : Option String

pub record CollectorStatus : Type 0 where
  pub tenants : Option (List String)
  pub state : String
  pub problems : Option (List String)
  pub problems_count : ℕ

pub record CollectorResource : Type 0 where
  pub name : String
  pub spec : CollectorSpec
  pub status : CollectorStatus

abbrev pub default_limiter : MemoryLimiter
default_limiter = record {
  check_interval = "1s";
  memory_limit_mib = 0;
  memory_spike_limit_mib = 25;
  memory_limit_percentage = 75;
  memory_spike_percentage = 0;
}

abbrev pub or_default : {A : Type 0} → A → Option A → A
or_default a none = a
or_default a (some b) = b

-- SetDefaults: what is read of the collector from then on.
unfoldable pub set_defaults : String → CollectorSpec → Collector
set_defaults name s = record {
  name = name;
  control_namespace = s.control_namespace;
  tenant_selector = s.tenant_selector;
  debug = s.debug;
  dry_run_mode = s.dry_run_mode;
  events_to_logs = s.events_to_logs;
  memory_limiter = or_default default_limiter s.memory_limiter;
  image = some (or_default "" s.otel_common_fields);
}

-- SetProblems, ClearProblems and AddProblem of a collector.
unfoldable pub set_collector_problems : Option (List String) → CollectorStatus → CollectorStatus
set_collector_problems problems s = record s {
  problems = problems;
  problems_count = length (items problems);
}

abbrev pub clear_collector_problems : CollectorStatus → CollectorStatus
clear_collector_problems s = set_collector_problems (some []) s

abbrev pub collector_handler : ProblemHandler CollectorStatus
collector_handler = record { get_problems = λ s. s.problems; set_problems = set_collector_problems }

abbrev pub add_collector_problem : String → CollectorStatus → CollectorStatus
add_collector_problem p s = add collector_handler s (p ∷ [])

unfoldable pub collector_status_eq : CollectorStatus → CollectorStatus → Bool
collector_status_eq a b =
    a.tenants == b.tenants
    && a.state == b.state
    && a.problems == b.problems
    && a.problems_count == b.problems_count

-- The comparison finds two statuses equal exactly if they are, nil slices told from empty ones.
pub collector_status_eq_iff : (a b : CollectorStatus) → (collector_status_eq a b ≡ true) ↔ (a ≡ b)
unfolding collector_status_eq
collector_status_eq_iff a b = ground (
  arith,
  option_beq_iff a.tenants b.tenants,
  eq_iff a.state b.state,
  option_beq_iff a.problems b.problems,
)
