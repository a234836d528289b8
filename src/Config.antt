-- ===== src/Config.antt =====
-- pkg/broker/config.go: the configuration, its validation, and the parameters that can be tuned. An
-- int, an int64 and a duration in nanoseconds are integers; floats and the validator of
-- github.com/nobl9/govy are parameters.
pub mod Tuning
mod Tests
use Prim.Native.String.{String}
use nya_queue.Prelude.{
  ℕ, ◌*◌, ◌^◌, Bool, true, false, ◌&&◌, Option, none, some, List, [], ◌∷◌, not, if◌then◌else◌, ◌==◌,
}
use nya_queue.Prelude.Int.{ℤ, pos, negsuc, ltb_ℤ}
use nya_queue.Partition.{ScheduleMode}
use text.Mathlib.Text

pub data SyncPolicy : Type 0 where
  every_write interval none_ : SyncPolicy

pub record Config : Type 0 where
  pub segment_max_bytes : ℤ
  pub segment_max_count : ℤ
  pub retention_max_bytes : ℤ
  pub retention_max_age : ℤ
  pub flush_interval_ms : ℤ
  pub sync_policy : SyncPolicy
  pub compression_type : ℤ
  pub max_connections : ℤ
  pub recv_buffer_bytes : ℤ
  pub send_buffer_bytes : ℤ
  pub max_message_bytes : ℤ
  pub read_timeout_ms : ℤ
  pub write_timeout_ms : ℤ
  pub num_network_goroutines : ℤ
  pub num_io_goroutines : ℤ
  pub max_queued_requests : ℤ
  pub batch_size : ℤ
  pub batch_memory_bytes : ℤ
  pub linger_ms : ℤ
  pub fetch_min_bytes : ℤ
  pub fetch_max_wait_ms : ℤ
  pub max_fetch_bytes : ℤ
  pub consumer_session_timeout_ms : ℤ

-- `DQNThrottleOnLoad` is a float.
pub record TopicConfig (Float : Type 0) : Type 0 where
  pub schedule_mode : ScheduleMode
  pub num_partitions : ℤ
  pub priority_levels : ℤ
  pub anti_starvation_ttl : ℤ
  pub dqn_throttle_on_load : Float

-- A rule of the validator: the bounds of a value, the upper one if there is one.
pub record Rule : Type 0 where
  pub value : Config → ℤ
  pub at_least : ℤ
  pub at_most : Option ℤ

unfoldable pub config_rules : List Rule
config_rules =
    record {
      value = λ (c : Config). c.segment_max_bytes;
      at_least = pos (2 ^ 20);
      at_most = some (pos (64 * 2 ^ 20));
    }
    ∷ record { value = λ (c : Config). c.segment_max_count; at_least = pos 1; at_most = none }
    ∷ record {
      value = λ (c : Config). c.retention_max_bytes;
      at_least = pos (2 ^ 20);
      at_most = none;
    }
    ∷ record {
      value = λ (c : Config). c.flush_interval_ms;
      at_least = pos 1;
      at_most = some (pos 60_000);
    }
    ∷ record {
      value = λ (c : Config). c.compression_type;
      at_least = pos 0;
      at_most = some (pos 3);
    }
    ∷ record {
      value = λ (c : Config). c.max_connections;
      at_least = pos 1;
      at_most = some (pos 65_535);
    }
    ∷ record { value = λ (c : Config). c.recv_buffer_bytes; at_least = pos 1024; at_most = none }
    ∷ record { value = λ (c : Config). c.send_buffer_bytes; at_least = pos 1024; at_most = none }
    ∷ record { value = λ (c : Config). c.max_message_bytes; at_least = pos 1024; at_most = none }
    ∷ record {
      value = λ (c : Config). c.num_network_goroutines;
      at_least = pos 1;
      at_most = some (pos 256);
    }
    ∷ record {
      value = λ (c : Config). c.num_io_goroutines;
      at_least = pos 1;
      at_most = some (pos 256);
    }
    ∷ record { value = λ (c : Config). c.max_queued_requests; at_least = pos 1; at_most = none }
    ∷ record { value = λ (c : Config). c.batch_size; at_least = pos 1; at_most = none }
    ∷ record {
      value = λ (c : Config). c.batch_memory_bytes;
      at_least = pos 1024;
      at_most = some (pos (64 * 2 ^ 20));
    }
    ∷ record { value = λ (c : Config). c.fetch_min_bytes; at_least = pos 1; at_most = none }
    ∷ record { value = λ (c : Config). c.fetch_max_wait_ms; at_least = pos 1; at_most = none }
    ∷ record {
      value = λ (c : Config). c.consumer_session_timeout_ms;
      at_least = pos 1000;
      at_most = none;
    }
    ∷ []

-- Every rule is met, which is what govy documents of `GTE`, `LTE` and `Validate`.
unfoldable pub meets : Config → List Rule → Bool
meets c [] = true
meets c (r ∷ rs) =
    not (ltb_ℤ (r.value c) r.at_least)
    && elim r.at_most [ none ↦ true | some most ↦ not (ltb_ℤ most (r.value c)) ]
    && meets c rs

unfoldable pub default_config : Config
default_config = record {
  segment_max_bytes = pos (20 * 1024 * 1024);
  segment_max_count = pos 100;
  retention_max_bytes = pos (2 ^ 30);
  retention_max_age = pos (168 * 3_600_000_000_000);
  flush_interval_ms = pos 1000;
  sync_policy = SyncPolicy.interval;
  compression_type = pos 0;
  max_connections = pos 1024;
  recv_buffer_bytes = pos 65_536;
  send_buffer_bytes = pos 65_536;
  max_message_bytes = pos (2 ^ 20);
  read_timeout_ms = pos 30_000;
  write_timeout_ms = pos 30_000;
  num_network_goroutines = pos 4;
  num_io_goroutines = pos 4;
  max_queued_requests = pos 500;
  batch_size = pos 100;
  batch_memory_bytes = pos 65_536;
  linger_ms = pos 5;
  fetch_min_bytes = pos 1;
  fetch_max_wait_ms = pos 500;
  max_fetch_bytes = pos (2 ^ 20);
  consumer_session_timeout_ms = pos 30_000;
}

-- `throttle` is 0.9.
unfoldable pub default_topic_config : {F : Type 0} → F → TopicConfig F
default_topic_config throttle = record {
  schedule_mode = ScheduleMode.fifo;
  num_partitions = pos 4;
  priority_levels = pos 1;
  anti_starvation_ttl = pos 10_000_000_000;
  dqn_throttle_on_load = throttle;
}

-- Structural equality of configurations, `old.cfg == cfg`.
abbrev pub eq_ℤ : ℤ → ℤ → Bool
eq_ℤ (pos a) (pos b) = a == b
eq_ℤ (negsuc a) (negsuc b) = a == b
eq_ℤ (pos a) (negsuc b) = false
eq_ℤ (negsuc a) (pos b) = false

abbrev pub same_policy : SyncPolicy → SyncPolicy → Bool
same_policy SyncPolicy.every_write SyncPolicy.every_write = true
same_policy SyncPolicy.interval SyncPolicy.interval = true
same_policy SyncPolicy.none_ SyncPolicy.none_ = true
same_policy _ _ = false

unfoldable pub same_config : Config → Config → Bool
same_config c d =
    eq_ℤ c.segment_max_bytes d.segment_max_bytes
    && eq_ℤ c.segment_max_count d.segment_max_count
    && eq_ℤ c.retention_max_bytes d.retention_max_bytes
    && eq_ℤ c.retention_max_age d.retention_max_age
    && eq_ℤ c.flush_interval_ms d.flush_interval_ms
    && same_policy c.sync_policy d.sync_policy
    && eq_ℤ c.compression_type d.compression_type
    && eq_ℤ c.max_connections d.max_connections
    && eq_ℤ c.recv_buffer_bytes d.recv_buffer_bytes
    && eq_ℤ c.send_buffer_bytes d.send_buffer_bytes
    && eq_ℤ c.max_message_bytes d.max_message_bytes
    && eq_ℤ c.read_timeout_ms d.read_timeout_ms
    && eq_ℤ c.write_timeout_ms d.write_timeout_ms
    && eq_ℤ c.num_network_goroutines d.num_network_goroutines
    && eq_ℤ c.num_io_goroutines d.num_io_goroutines
    && eq_ℤ c.max_queued_requests d.max_queued_requests
    && eq_ℤ c.batch_size d.batch_size
    && eq_ℤ c.batch_memory_bytes d.batch_memory_bytes
    && eq_ℤ c.linger_ms d.linger_ms
    && eq_ℤ c.fetch_min_bytes d.fetch_min_bytes
    && eq_ℤ c.fetch_max_wait_ms d.fetch_max_wait_ms
    && eq_ℤ c.max_fetch_bytes d.max_fetch_bytes
    && eq_ℤ c.consumer_session_timeout_ms d.consumer_session_timeout_ms

-- A float that the tuning hands over, as `int(math.Round(val))` and as `int64(val)`.
pub record Rounding : Type 1 where
  pub Float : Type 0
  pub rounded : Float → ℤ
  pub truncated : Float → ℤ

unfoldable pub set_param_by_name : (f : Rounding) → Config → String → f.Float → Config
set_param_by_name f cfg name val =
    let v = f.rounded val in
    if Text.◌==◌ name "SegmentMaxBytes"
    then record cfg { segment_max_bytes = v }
    else if Text.◌==◌ name "SegmentMaxCount"
    then record cfg { segment_max_count = v }
    else if Text.◌==◌ name "RetentionMaxBytes"
    then record cfg { retention_max_bytes = f.truncated val }
    else if Text.◌==◌ name "RetentionMaxAge"
    then record cfg { retention_max_age = f.truncated val }
    else if Text.◌==◌ name "FlushIntervalMs"
    then record cfg { flush_interval_ms = v }
    else if Text.◌==◌ name "CompressionType"
    then record cfg { compression_type = v }
    else if Text.◌==◌ name "MaxConnections"
    then record cfg { max_connections = v }
    else if Text.◌==◌ name "RecvBufferBytes"
    then record cfg { recv_buffer_bytes = v }
    else if Text.◌==◌ name "SendBufferBytes"
    then record cfg { send_buffer_bytes = v }
    else if Text.◌==◌ name "MaxMessageBytes"
    then record cfg { max_message_bytes = v }
    else if Text.◌==◌ name "ReadTimeoutMs"
    then record cfg { read_timeout_ms = v }
    else if Text.◌==◌ name "WriteTimeoutMs"
    then record cfg { write_timeout_ms = v }
    else if Text.◌==◌ name "NumNetworkGoroutines"
    then record cfg { num_network_goroutines = v }
    else if Text.◌==◌ name "NumIOGoroutines"
    then record cfg { num_io_goroutines = v }
    else if Text.◌==◌ name "MaxQueuedRequests"
    then record cfg { max_queued_requests = v }
    else if Text.◌==◌ name "BatchSize"
    then record cfg { batch_size = v }
    else if Text.◌==◌ name "BatchMemoryBytes"
    then record cfg { batch_memory_bytes = v }
    else if Text.◌==◌ name "LingerMs"
    then record cfg { linger_ms = v }
    else if Text.◌==◌ name "FetchMinBytes"
    then record cfg { fetch_min_bytes = v }
    else if Text.◌==◌ name "FetchMaxWaitMs"
    then record cfg { fetch_max_wait_ms = v }
    else if Text.◌==◌ name "MaxFetchBytes"
    then record cfg { max_fetch_bytes = v }
    else if Text.◌==◌ name "ConsumerSessionTimeoutMs"
    then record cfg { consumer_session_timeout_ms = v }
    else cfg

abbrev pub num_tunable_params : ℕ
num_tunable_params = 22

-- The bounds are floats, which are whole numbers here.
pub record ParamRange : Type 0 where
  pub name : String
  pub min : ℕ
  pub max : ℕ

unfoldable pub tunable_param_ranges : List ParamRange
tunable_param_ranges =
    record { name = "SegmentMaxBytes"; min = 2 ^ 20; max = 64 * 2 ^ 20 }
    ∷ record { name = "SegmentMaxCount"; min = 10; max = 500 }
    ∷ record { name = "RetentionMaxBytes"; min = 100 * 2 ^ 20; max = 10 * 2 ^ 30 }
    ∷ record { name = "RetentionMaxAge"; min = 3_600_000_000_000; max = 720 * 3_600_000_000_000 }
    ∷ record { name = "FlushIntervalMs"; min = 100; max = 10_000 }
    ∷ record { name = "CompressionType"; min = 0; max = 3 }
    ∷ record { name = "MaxConnections"; min = 64; max = 8192 }
    ∷ record { name = "RecvBufferBytes"; min = 4096; max = 2 ^ 20 }
    ∷ record { name = "SendBufferBytes"; min = 4096; max = 2 ^ 20 }
    ∷ record { name = "MaxMessageBytes"; min = 1024; max = 10 * 2 ^ 20 }
    ∷ record { name = "ReadTimeoutMs"; min = 1000; max = 120_000 }
    ∷ record { name = "WriteTimeoutMs"; min = 1000; max = 120_000 }
    ∷ record { name = "NumNetworkGoroutines"; min = 1; max = 32 }
    ∷ record { name = "NumIOGoroutines"; min = 1; max = 32 }
    ∷ record { name = "MaxQueuedRequests"; min = 50; max = 5000 }
    ∷ record { name = "BatchSize"; min = 1; max = 1000 }
    ∷ record { name = "BatchMemoryBytes"; min = 1024; max = 2 ^ 20 }
    ∷ record { name = "LingerMs"; min = 0; max = 100 }
    ∷ record { name = "FetchMinBytes"; min = 1; max = 2 ^ 20 }
    ∷ record { name = "FetchMaxWaitMs"; min = 10; max = 5000 }
    ∷ record { name = "MaxFetchBytes"; min = 1024; max = 10 * 2 ^ 20 }
    ∷ record { name = "ConsumerSessionTimeoutMs"; min = 5000; max = 120_000 }
    ∷ []
