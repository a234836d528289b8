-- ===== src/Broker/Sample.antt =====
-- A small broker: logs in memory, numbers for the floats, the scheduler `FIFO` and a balancer that
-- always takes the first partition and counts the publishes in flight.
use nya_queue.Prelude.{
  ℕ, ◌+◌, ◌-◌, ◌*◌, ◌/◌, true, false, Option, none, some, List, [], ◌∷◌, ltb, leb,
}
use nya_queue.Prelude.Int.{pos}
use nya_queue.Balancer.{Floats}
use nya_queue.Message.{Message}
use nya_queue.Codec.{noop_codec}
use nya_queue.Wal.ListLog.{ListLog, list_wal}
use nya_queue.Partition.{ScheduleMode, Clock, Partition}
use nya_queue.Scheduler.{next_fifo}
use nya_queue.Config.{SyncPolicy, TopicConfig, default_config}
use nya_queue.Topic.{Topic}
use nya_queue.Broker.{Parts, Broker, new_broker}

abbrev pub numbers : Floats
numbers = record {
  Float = ℕ;
  of_int = λ n. n;
  plus = λ a b. a + b;
  minus = λ a b. a - b;
  times = λ a b. a * b;
  divide = λ a b. a / b;
  less = ltb;
  less_equal = leb;
}

abbrev pub parts : Parts
parts = record {
  wal = list_wal;
  floats = numbers;
  limits = record { default_threshold = 85; warn_ratio = 1; flush_latency_warn_ms = 100 };
  roots = record { root = λ n. n; one = 1; tiny = 0 };
  statistics = record {
    milli = 0;
    one = 1;
    ns_per_ms = 1000000;
    std_dev = λ xs. 0;
    mean = λ xs. 0;
  };
  compressors = record { snappy = noop_codec; gzip = noop_codec; lz4 = noop_codec };
  badger = record { Db = ℕ; put = λ db k v. (true, db + 1); delete = λ db ks. (true, db) };
  close_log = λ log. true;
  BalancerState = ℕ;
  select_partition = λ s topic key n. (0, s + 1);
  on_publish_complete = λ s part. s - 1;
  on_metrics = λ s m. s;
  set_base_throughput = λ s v. s;
  SchedulerState = Unit {0};
  next = λ s p offset. ((next_fifo list_wal p offset).0, (next_fifo list_wal p offset).1, s, p);
}

abbrev pub orders : List ℕ
orders = 111 ∷ []

abbrev pub bills : List ℕ
bills = 98 ∷ []

abbrev pub partition : List ℕ → ℕ → Partition ListLog
partition name i = record {
  id = i;
  topic_name = name;
  log = record { entries = []; first = 1; last = 0 };
  next_offset = 1;
  priority_index = none;
  schedule_mode = ScheduleMode.fifo;
  last_flush_ns = 0;
  batch_codec = none;
}

abbrev pub topic_config : TopicConfig ℕ
topic_config = record {
  schedule_mode = ScheduleMode.fifo;
  num_partitions = pos 2;
  priority_levels = pos 8;
  anti_starvation_ttl = pos 5;
  dqn_throttle_on_load = 0;
}

abbrev pub topic : List ℕ → Topic list_wal ℕ
topic name = record {
  name = name;
  partitions = partition name 0 ∷ partition name 1 ∷ [];
  config = topic_config;
  is_closed = false;
}

abbrev pub message : Message
message = record {
  header = record { priority = 3; timestamp = 258; produce_time = 0; append_time = 0 };
  key = 107 ∷ [];
  value = 5 ∷ [];
  batch_decoded = false;
}

abbrev pub clock : Clock
clock = record { append_time = 9; flush = 3; arrived = pos 20 }

-- A new broker, and one with two topics whose partitions share their counters.
abbrev pub fresh : Broker parts
fresh = new_broker parts 85 default_config 0 none

abbrev pub running : Broker parts
running = record fresh {
  topics = (orders, topic orders) ∷ (bills, topic bills) ∷ [];
  schedulers = (orders, tt) ∷ (bills, tt) ∷ [];
  collector = record {
    counts = record {
      produce_count = 5;
      consume_count = 2;
      produce_bytes = 0;
      part_produces = 3 ∷ 2 ∷ [];
      part_consumes = 1 ∷ 1 ∷ [];
      prev_part_produces = [];
      prev_part_consumes = [];
      avg_flush_latency_ns = 0;
      retention_deleted_bytes = 0;
      retention_deleted_segments = 0;
    };
    throughput_history = [];
    load_std_dev_history = [];
  };
}

abbrev pub opened : SyncPolicy → ℕ → Option ListLog
opened policy i = some (record { entries = []; first = 1; last = 0 })
