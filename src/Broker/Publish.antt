-- ===== src/Broker/Publish.antt =====
-- `Publish`. The clock, the buffer pool and the balancer are parameters.
pub mod Refusals
pub mod Success
use nya_queue.Prelude.{
  ℕ, ◌+◌, Bool, true, false, ◌&&◌, Option, none, some, List, [], ◌∷◌, if◌then◌else◌, length,
}
use nya_queue.Prelude.Int.{ℤ, pos, ltb_ℤ}
use nya_queue.Message.{Message, MessageHeader}
use nya_queue.Codec.{Codec}
use nya_queue.Backpressure
use nya_queue.Backpressure.{Controller}
use nya_queue.Partition
use nya_queue.Partition.{Partition, Clock, stamp}
use nya_queue.Partition.Methods.{append}
use nya_queue.OffsetStore.{lookup}
use nya_queue.Config.{Config}
use nya_queue.Metrics
use nya_queue.Topic.{Topic, num_partitions, get_partition}
use nya_queue.Broker.{
  Parts, Error, Result, ok, err, topic_not_found, throttled, message_too_large, compress_failed,
  partition_out_of_range, append_failed, Broker, Float, put_partition,
}

-- The length of key and value is above the limit, if there is one.
unfoldable pub is_too_large : Config → Message → Bool
is_too_large cfg m =
    ltb_ℤ (pos 0) cfg.max_message_bytes
    && ltb_ℤ cfg.max_message_bytes (pos (length m.key + length m.value))

-- `none` is an error.
unfoldable pub compress_message : Message → Codec → Option Message
compress_message m codec = elim (codec.encode m.value) [
  | none ↦ none
  | some compressed ↦ some (record m { value = compressed })
]

-- `msg.Header.ProduceTime = now`
unfoldable pub produced_at : ℕ → Message → Message
produced_at now m = let h = m.header in record m { header = record h { produce_time = now } }

module _ (x : Parts) where
  open x use {wal, floats}

  -- What `Publish` leaves: the message is the caller's, who sees what was done to it.
  pub record Published : Type 0 where
    pub result : Result (ℕ × ℕ)
    pub message : Message
    pub broker : Broker x

  -- The verdict of the backpressure on a partition, which is counted.
  unfoldable pub is_refused : Broker x → ℕ → Bool × Broker x
  is_refused b part = elim b.backpressure [
    | none ↦ (false, b)
    | some bp ↦
        let (state, bp') = Backpressure.check floats x.limits bp part in
        (
          elim state [ Backpressure.closed ↦ true | _ ↦ false ],
          record b { backpressure = some bp' },
        )
  ]

  unfoldable pub record_produce : Broker x → ℕ → Broker x
  record_produce b part =
      let mc = b.collector in
      record b { collector = record mc { counts = Metrics.record_produce mc.counts part } }

  unfoldable pub complete : Broker x → ℕ → Broker x
  complete b part = record b { balancer = x.on_publish_complete b.balancer part }

  -- From the append on.
  unfoldable pub publish_to :
      (ℕ → List ℕ)
      → Clock
      → ℕ
      → Broker x
      → List ℕ
      → Topic wal (Float x)
      → ℕ
      → Partition wal.Log
      → Message
      → Published
  unfolding complete record_produce
  publish_to pool clock now b name t part p m =
      let timed = produced_at now m in
      let (out, p') = append wal pool clock p timed in
      let done = complete (put_partition x b name t part p') part in
      elim out [
        | Partition.err e ↦ record {
          result = err (append_failed e);
          message = stamp clock.append_time timed;
          broker = done;
        }
        | Partition.ok offset ↦ record {
          result = ok (part, offset);
          message = stamp clock.append_time timed;
          broker = record_produce done part;
        }
      ]

  -- From the choice of a partition on.
  unfoldable pub publish_in :
      (ℕ → List ℕ) → Clock → ℕ → Broker x → List ℕ → Topic wal (Float x) → Message → Published
  unfolding is_refused
  publish_in pool clock now b name t m =
      let (part, bal) = x.select_partition b.balancer name m.key (num_partitions wal (Float x) t) in
      let selected : Broker x = record b { balancer = bal } in
      let (refused, checked) = is_refused selected part in
      if refused
      then record { result = err throttled; message = m; broker = checked }
      else elim (get_partition wal (Float x) t (pos part)) [
        | none ↦ record {
          result = err (partition_out_of_range part (num_partitions wal (Float x) t));
          message = m;
          broker = checked;
        }
        | some p ↦ publish_to pool clock now checked name t part p m
      ]

  unfoldable pub publish : (ℕ → List ℕ) → Clock → ℕ → Broker x → List ℕ → Message → Published
  publish pool clock now b name m =
      if is_too_large b.config m
      then record { result = err message_too_large; message = m; broker = b }
      else elim (compress_message m b.codec) [
        | none ↦ record { result = err compress_failed; message = m; broker = b }
        | some packed ↦ elim (lookup b.topics name) [
          | none ↦ record { result = err topic_not_found; message = packed; broker = b }
          | some t ↦ publish_in pool clock now b name t packed
        ]
      ]
