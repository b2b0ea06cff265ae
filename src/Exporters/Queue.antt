-- ===== src/Exporters/Queue.antt =====
-- exporter/common.go: the queue and the retries of an exporter, with their defaults.
use telemetry_controller.Prelude.{
  String, Bool, true, Option, none, some, List, [], ◌∷◌, ◌++◌, ℤ, pos,
}
use telemetry_controller.Api.{QueueBatch, QueueSettings, BackOffConfig}
use telemetry_controller.Values.{Value, text, flag, config}
use telemetry_controller.Values.Json.{int, optional, nonempty, elements}

pub record QueueBatchPartitionWrapper : Type 0 where
  pub metadata_keys : List String

pub record QueueBatchWrapper : Type 0 where
  pub flush_timeout : String
  pub min_size : Option ℤ
  pub max_size : Option ℤ
  pub sizer : Option String
  pub partition : Option QueueBatchPartitionWrapper

pub record QueueWrapper : Type 0 where
  pub enabled : Option Bool
  pub num_consumers : Option ℤ
  pub queue_size : Option ℤ
  pub sizer : Option String
  pub wait_for_result : Option Bool
  pub block_on_overflow : Option Bool
  pub storage : Option String
  pub batch : Option QueueBatchWrapper

pub record BackOffWrapper : Type 0 where
  pub enabled : Option Bool
  pub initial_interval : Option String
  pub randomization_factor : Option String
  pub multiplier : Option String
  pub max_interval : Option String
  pub max_elapsed_time : Option String

partition_of : List String → Option QueueBatchPartitionWrapper
partition_of [] = none
partition_of (k ∷ ks) = some (record { metadata_keys = k ∷ ks })

-- newQueueBatchWrapper
unfoldable pub new_queue_batch_wrapper : QueueBatch → QueueBatchWrapper
unfolding partition_of
new_queue_batch_wrapper b = record {
  flush_timeout = b.flush_timeout;
  min_size = b.min_size;
  max_size = b.max_size;
  sizer = b.sizer;
  partition = partition_of b.metadata_keys;
}

-- `if user != nil { field = user }`
abbrev pub override : {A : Type 0} → Option A → Option A → Option A
override none field = field
override (some a) field = some a

override_batch : Option QueueBatch → Option QueueBatchWrapper → Option QueueBatchWrapper
override_batch none field = field
override_batch (some b) field = some (new_queue_batch_wrapper b)

-- setDefaultQueueSettings
unfoldable pub set_default_queue_settings : Option QueueSettings → QueueWrapper → QueueWrapper
unfolding override_batch new_queue_batch_wrapper
set_default_queue_settings none q = record q { enabled = some true; queue_size = some (pos 1000) }
set_default_queue_settings (some s) q = record q {
  enabled = some true;
  num_consumers = override s.num_consumers q.num_consumers;
  queue_size = override s.queue_size (some (pos 1000));
  sizer = override s.sizer q.sizer;
  wait_for_result = override s.wait_for_result q.wait_for_result;
  block_on_overflow = override s.block_on_overflow q.block_on_overflow;
  batch = override_batch s.batch q.batch;
}

-- setDefaultBackOffConfig
unfoldable pub set_default_back_off_config : Option BackOffConfig → BackOffWrapper → BackOffWrapper
set_default_back_off_config none b = record b { enabled = some true; max_elapsed_time = some "0s" }
set_default_back_off_config (some c) b = record b {
  enabled = some true;
  initial_interval = override c.initial_interval b.initial_interval;
  randomization_factor = override c.randomization_factor b.randomization_factor;
  multiplier = override c.multiplier b.multiplier;
  max_interval = override c.max_interval b.max_interval;
  max_elapsed_time = override c.max_elapsed_time (some "0s");
}

-- &queueWrapper{} and &backOffWrapper{}
abbrev pub empty_queue : QueueWrapper
empty_queue = record {
  enabled = none;
  num_consumers = none;
  queue_size = none;
  sizer = none;
  wait_for_result = none;
  block_on_overflow = none;
  storage = none;
  batch = none;
}

abbrev pub empty_back_off : BackOffWrapper
empty_back_off = record {
  enabled = none;
  initial_interval = none;
  randomization_factor = none;
  multiplier = none;
  max_interval = none;
  max_elapsed_time = none;
}

-- The json tags of these structs.
partition_value : QueueBatchPartitionWrapper → Value
partition_value p = config (elements text "metadata_keys" p.metadata_keys)

batch_value : QueueBatchWrapper → Value
batch_value b = config (
    nonempty "flush_timeout" b.flush_timeout
    ++ optional int "min_size" b.min_size
    ++ optional int "max_size" b.max_size
    ++ optional text "sizer" b.sizer
    ++ optional partition_value "partition" b.partition)

unfoldable pub queue_value : QueueWrapper → Value
unfolding batch_value partition_value
queue_value q = config (
    optional flag "enabled" q.enabled
    ++ optional int "num_consumers" q.num_consumers
    ++ optional int "queue_size" q.queue_size
    ++ optional text "sizer" q.sizer
    ++ optional flag "wait_for_result" q.wait_for_result
    ++ optional flag "block_on_overflow" q.block_on_overflow
    ++ optional text "storage" q.storage
    ++ optional batch_value "batch" q.batch)

unfoldable pub back_off_value : BackOffWrapper → Value
back_off_value b = config (
    optional flag "enabled" b.enabled
    ++ optional text "initial_interval" b.initial_interval
    ++ optional text "randomization_factor" b.randomization_factor
    ++ optional text "multiplier" b.multiplier
    ++ optional text "max_interval" b.max_interval
    ++ optional text "max_elapsed_time" b.max_elapsed_time)
