-- ===== src/Broker.antt =====
-- pkg/broker/broker.go: the broker, over its parts. A method returns the new broker beside its
-- results; methods are taken one at a time. Partition numbers of callers are not negative.
pub mod Topics
pub mod Publish
pub mod Batch
pub mod Consume
pub mod Ticks
pub mod PowerOfTwo
mod Sample
mod Tests
use nya_queue.Prelude.{
  ℕ, zero, suc, Bool, true, false, Option, none, some, List, [], ◌∷◌, if◌then◌else◌, set, map,
}
use nya_queue.Prelude.Int.{ℤ, pos, negsuc}
use nya_queue.Balancer.{Floats}
use nya_queue.Message.{Message}
use nya_queue.Codec.{Codec, Compressors, new_codec}
use nya_queue.Wal.{Wal}
use nya_queue.Partition
use nya_queue.Partition.{Partition}
use nya_queue.Scheduler
use nya_queue.Backpressure.{Controller, Limits, new_controller}
use nya_queue.OffsetStore.{Badger, OffsetStore, Key, insert, remove}
use nya_queue.Config.{Config, TopicConfig}
use nya_queue.LoadPredictor.{Roots, LoadPredictor, new_load_predictor}
use nya_queue.Metrics.{Statistics, Metrics, Collector, no_counts}
use nya_queue.Topic.{Topic}

-- What the broker is made of. `BalancerState` and `SchedulerState` are the values of the interfaces;
-- `on_publish_complete` and `set_base_throughput` leave a balancer that does not have them.
-- `close_log` says whether a log is closed without an error.
pub record Parts : Type 1 where
  pub wal : Wal
  pub floats : Floats
  pub limits : Limits floats
  pub roots : Roots floats
  pub statistics : Statistics floats
  pub compressors : Compressors
  pub badger : Badger
  pub close_log : wal.Log → Bool
  pub BalancerState : Type 0
  pub select_partition : BalancerState → List ℕ → List ℕ → ℕ → ℕ × BalancerState
  pub on_publish_complete : BalancerState → ℕ → BalancerState
  pub on_metrics : BalancerState → Metrics floats statistics → BalancerState
  pub set_base_throughput : BalancerState → floats.Float → BalancerState
  pub SchedulerState : Type 0
  pub next :
      SchedulerState
      → Partition wal.Log
      → ℕ
      → Scheduler.Result Message × ℕ × SchedulerState × Partition wal.Log

pub data Error : Type 0 where
  topic_already_exists topic_not_found no_messages throttled message_too_large : Error
  topic_failed : Partition.Error → Error
  close_failed remove_dir_failed : Error
  compress_failed decompress_failed : Error
  partition_out_of_range : ℕ → ℕ → Error
  append_failed : Partition.Error → Error
  not_acquired : Error
  no_scheduler : Error
  next_failed : Scheduler.Error → Error
  load_failed commit_failed : Error
  invalid_config : Error

pub data Result {ℓ} (A : Type ℓ) : Type ℓ where
  ok : A → Result A
  err : Error → Result A

module _ (x : Parts) where
  open x use {wal, floats, BalancerState, SchedulerState}

  abbrev pub Float : Type 0
  Float = floats.Float

  -- The two snapshots, the maps and what the broker owns. `io_slots` is the capacity of the gate.
  pub record Broker : Type 0 where
    pub config : Config
    pub codec : Codec
    pub io_slots : ℤ
    pub balancer : BalancerState
    pub backpressure : Option (Controller floats)
    pub scheduler_factory : Option (TopicConfig Float → SchedulerState)
    pub topics : List (Key × Topic wal Float)
    pub schedulers : List (Key × SchedulerState)
    pub collector : Collector floats x.statistics
    pub last_snap : Option (Metrics floats x.statistics)
    pub predictor : LoadPredictor floats x.roots
    pub offset_store : Option (OffsetStore x.badger)

  -- The size of the pool, which is 4 if the number is not positive.
  abbrev pub pool_size : ℤ → ℤ
  pool_size (pos (suc n)) = pos (suc n)
  pool_size _ = pos 4

  -- `New`, which has the default threshold for the backpressure, and the two numbers of the
  -- predictor: 100 and 8.
  unfoldable pub new_broker :
      Float → Config → BalancerState → Option (OffsetStore x.badger) → Broker
  new_broker bp_threshold cfg bal offset_store = record {
    config = cfg;
    codec = new_codec x.compressors cfg.compression_type;
    io_slots = pool_size cfg.num_io_goroutines;
    balancer = bal;
    backpressure = some (new_controller floats x.limits bp_threshold);
    scheduler_factory = none;
    topics = [];
    schedulers = [];
    collector = record { counts = no_counts; throughput_history = []; load_std_dev_history = [] };
    last_snap = none;
    predictor = new_load_predictor floats x.roots 100 8;
    offset_store = offset_store;
  }

  unfoldable pub set_balancer : Broker → BalancerState → Broker
  set_balancer b bal = record b { balancer = bal }

  -- `Delete` of the old scheduler, which is stopped, and `Store`.
  unfoldable pub set_scheduler : Broker → List ℕ → SchedulerState → Broker
  set_scheduler b topic sched = record b {
    schedulers = insert (remove b.schedulers topic) topic sched;
  }

  unfoldable pub set_scheduler_factory : Broker → (TopicConfig Float → SchedulerState) → Broker
  set_scheduler_factory b fn = record b { scheduler_factory = some fn }

  unfoldable pub set_backpressure : Broker → Controller floats → Broker
  set_backpressure b bp = record b { backpressure = some bp }

  -- The partition of a topic in its new state.
  unfoldable pub put_partition : Broker → List ℕ → Topic wal Float → ℕ → Partition wal.Log → Broker
  put_partition b name t i p = record b {
    topics = insert b.topics name (record t { partitions = set t.partitions i p });
  }
