-- ===== src/Broker/Consume.antt =====
-- `Consume` and what belongs to it, and the offsets of the consumer groups.
pub mod Reads
pub mod Delivery
pub mod Polls
mod Tests
use nya_queue.Prelude.{
  ℕ, zero, suc, Bool, true, false, Option, none, some, List, [], ◌∷◌, ◌++◌, if◌then◌else◌,
}
use nya_queue.Prelude.Int.{ℤ, pos}
use nya_queue.EntryRing.{Time}
use nya_queue.Message.{Message}
use nya_queue.Partition.{Partition}
use nya_queue.Scheduler
use nya_queue.OffsetStore
use nya_queue.OffsetStore.{lookup, insert}
use nya_queue.Metrics
use nya_queue.Topic.{Topic, num_partitions, get_partition}
use nya_queue.Broker.{
  Parts, Error, Result, ok, err, topic_not_found, no_messages, decompress_failed,
  partition_out_of_range, no_scheduler, next_failed, load_failed, commit_failed, Broker, Float,
  put_partition,
}

-- The errors of `Next`: what `errors.Is(err, ErrNoMessages)` finds is one of its own.
unfoldable pub next_error : Scheduler.Error → Error
next_error Scheduler.no_messages = no_messages
next_error (Scheduler.no_priority_index i) = next_failed (Scheduler.no_priority_index i)
next_error (Scheduler.read_failed e) = next_failed (Scheduler.read_failed e)

module _ (x : Parts) where
  open x use {wal, floats}

  -- The message is left as it is, if it was decoded with its batch.
  unfoldable pub decompress_message : Broker x → Message → Option Message
  decompress_message b m = if m.batch_decoded then some m else elim (b.codec.decode m.value) [
    | none ↦ none
    | some value ↦ some (record m { value = value })
  ]

  unfoldable pub record_consume : Broker x → ℕ → Broker x
  record_consume b part =
      let mc = b.collector in
      record b { collector = record mc { counts = Metrics.record_consume mc.counts part } }

  -- From what `Next` has given on: the message, and the offset to go on from.
  unfoldable pub deliver :
      Broker x
      → List ℕ
      → Topic wal (Float x)
      → ℕ
      → Scheduler.Result Message × ℕ × x.SchedulerState × Partition wal.Log
      → Result (Message × ℕ) × Broker x
  unfolding record_consume next_error
  deliver b topic t part (out, next_offset, sched, p) =
      let after : Broker x = record (put_partition x b topic t part p) {
        schedulers = insert b.schedulers topic sched;
      } in
      elim out [
        | Scheduler.err e ↦ (err (next_error e), after)
        | Scheduler.ok m ↦ elim (decompress_message after m) [
          | none ↦ (err decompress_failed, after)
          | some plain ↦ (ok (plain, next_offset), record_consume after part)
        ]
      ]

  unfoldable pub consume_from : Broker x → List ℕ → ℕ → ℕ → Result (Message × ℕ) × Broker x
  consume_from b topic part offset = elim (lookup b.topics topic) [
    | none ↦ (err topic_not_found, b)
    | some t ↦ elim (get_partition wal (Float x) t (pos part)) [
      | none ↦ (err (partition_out_of_range part (num_partitions wal (Float x) t)), b)
      | some p ↦ elim (lookup b.schedulers topic) [
        | none ↦ (err no_scheduler, b)
        | some sched ↦ deliver b topic t part (x.next sched p offset)
      ]
    ]
  ]

  -- The offset that `Consume` and `ConsumeBatch` start from.
  unfoldable pub start_offset : Broker x → List ℕ → List ℕ → ℕ → ℕ
  start_offset b group topic part = elim b.offset_store [
    | none ↦ 0
    | some s ↦ elim (OffsetStore.load x.badger s group topic part) [ none ↦ 1 | some off ↦ off ]
  ]

  unfoldable pub consume : Broker x → List ℕ → List ℕ → ℕ → Result (Message × ℕ) × Broker x
  consume b topic group part = consume_from b topic part (start_offset b group topic part)

  -- `LoadOffset`: the offset, and whether there is an error beside it.
  unfoldable pub load_offset : Broker x → List ℕ → List ℕ → ℕ → ℕ × Option Error
  load_offset b group topic part = elim b.offset_store [
    | none ↦ (1, none)
    | some s ↦ elim (OffsetStore.load x.badger s group topic part) [
      | none ↦ (1, some load_failed)
      | some off ↦ (off, none)
    ]
  ]

  -- `now` is the reading of the clock.
  unfoldable pub commit : Broker x → Time → List ℕ → List ℕ → ℕ → ℕ → Bool × Broker x
  commit b now group topic part offset = elim b.offset_store [
    | none ↦ (true, b)
    | some s ↦
        let (done, s') = OffsetStore.commit x.badger s now group topic part offset in
        (done, record b { offset_store = some s' })
  ]

  -- What the loop of `ConsumeBatch` has come to: the messages, the offset behind the last of them,
  -- and the error that ended it.
  pub record Fetched : Type 0 where
    pub messages : List Message
    pub offset : ℕ
    pub stopped : Option Error
    pub broker : Broker x

  -- `left` rounds of the loop.
  unfoldable pub fetch : Broker x → List ℕ → ℕ → ℕ → ℕ → Fetched
  fetch b topic part offset zero = record {
    messages = [];
    offset = offset;
    stopped = none;
    broker = b;
  }
  fetch b topic part offset (suc left) =
      let (out, after) = consume_from b topic part offset in
      elim out [
        | err e ↦ record { messages = []; offset = offset; stopped = some e; broker = after }
        | ok found ↦
            let rest = fetch after topic part found.1 left in
            record rest { messages = found.0 ∷ rest.messages }
      ]

  -- What `ConsumeBatch` leaves: messages beside an error are those whose commit has failed.
  pub record Batch : Type 0 where
    pub messages : List Message
    pub offset : ℕ
    pub error : Option Error
    pub broker : Broker x

  unfoldable pub consume_batch : Broker x → Time → List ℕ → List ℕ → ℕ → ℕ → Batch
  consume_batch b now topic group part max_messages =
      let got = fetch b topic part (start_offset b group topic part) max_messages in
      let (done, committed) = commit got.broker now group topic part got.offset in
      elim got.messages [
        | [] ↦ record {
          messages = [];
          offset = 0;
          error = elim got.stopped [ none ↦ some no_messages | some e ↦ some e ];
          broker = got.broker;
        }
        | m ∷ ms ↦ record {
          messages = m ∷ ms;
          offset = got.offset;
          error = if done then none else some commit_failed;
          broker = committed;
        }
      ]
