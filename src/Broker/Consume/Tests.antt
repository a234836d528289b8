-- ===== src/Broker/Consume/Tests.antt =====
-- The theorems on consumers at a small broker.
use nya_queue.Prelude.{
  map, take, drop, ◌≤◌, Bool-cases, inl, inr, ℕ, ◌+◌, ◌*◌, ◌≡◌, refl, ap, ◌∙◌, subst, false, some,
  List, [], ◌∷◌, arith, length, ◌<◌,
}
use nya_queue.Prelude.Int.{pos}
use nya_queue.Prelude.Elems.{some-inj}
use nya_queue.Prelude.Words.{mod64}
use nya_queue.Message.{Message}
use nya_queue.Codec.{Codec, noop_codec, new_codec, IsLossless}
use nya_queue.Wal.{entry_at}
use nya_queue.Wal.ListLog
use nya_queue.Wal.ListLog.{ListLog, list_wal, list_wal-ReadsBack}
use nya_queue.Partition.{ScheduleMode, Clock, Partition, stamp, offsets_from, plain_records}
use nya_queue.Partition.Methods.{append, append_batch, commit_batch}
use nya_queue.Partition.View.{Serves}
use nya_queue.Partition.Batches.{stored, IsPlain}
use nya_queue.Backpressure
use nya_queue.OffsetStore.{load, OffsetStore, lookup, same_key}
use nya_queue.Config.{default_config}
use nya_queue.Topic.{Topic, num_partitions, get_partition}
use nya_queue.Broker.{ok, Broker, new_broker}
use nya_queue.Broker.Publish.{
  complete, is_too_large, compress_message, produced_at, is_refused, publish_to, publish_in,
  publish,
}
use nya_queue.Broker.Consume.{start_offset, decompress_message, consume_from}
use nya_queue.Broker.Consume.Reads.{publish-consume_from}
use nya_queue.Broker.Sample.{parts, orders, partition, topic, message, clock, running}
use nya_queue.Broker.Consume.Delivery.{Ready, Opens}
use nya_queue.Broker.Consume.Polls.{polls, polls-take_all}
use nya_queue.Partition.History.{append_batch-Serves}
use nya_queue.Partition

start-Serves : (name : List ℕ) (i : ℕ) → Serves list_wal (partition name i) 1 []
unfolding entry_at
start-Serves name i = record {
  ends = refl;
  reads = λ k m e. absurd (ground (arith, e));
  back = λ i bytes lt e. absurd (ground (arith, e));
}

publish-succeeds : (publish parts (λ i. []) clock 7 running orders message).result ≡ ok (0, 1)
unfolding publish publish_in publish_to is_too_large new_broker default_config compress_message
    new_codec lookup same_key is_refused produced_at num_partitions Backpressure.check
    Backpressure.evaluate Backpressure.new_controller Backpressure.evaluate_partition get_partition
    append append_batch ListLog.write_batch ListLog.runs_from plain_records commit_batch
    offsets_from stamp complete
publish-succeeds = refl

noop-IsLossless : IsLossless noop_codec
noop-IsLossless src out e = ground (arith, e)

produced-IsPlain : IsPlain (produced_at 7 message)
unfolding produced_at
produced-IsPlain = record {
  is_message = record {
    priority_byte = omega arith;
    timestamp_word = omega arith;
    produce_time_word = omega arith;
    append_time_word = omega arith;
    key_length = omega arith;
  };
  no_batch = λ e. omega (arith, e);
  no_redirect = λ e. omega (arith, e);
}

message-IsPlain :
    (packed : Message)
    → compress_message message noop_codec ≡ some packed
    → IsPlain (produced_at 7 packed)
unfolding compress_message
message-IsPlain packed e = subst (λ m. IsPlain (produced_at 7 m)) (some-inj e) produced-IsPlain

held :
    (t : Topic list_wal ℕ) (p : Partition ListLog)
    → lookup running.topics orders ≡ some t
    → get_partition list_wal ℕ t (pos 0) ≡ some p
    → (p.next_offset + 1 < mod64) × Serves list_wal p 1 []
unfolding lookup same_key get_partition
held t p e h =
    let found =
      ap (λ (t : Topic list_wal ℕ). get_partition list_wal ℕ t (pos 0)) (some-inj e) ∙ h in
    subst (λ (p : Partition ListLog). (p.next_offset + 1 < mod64) × Serves list_wal p 1 [])
      (some-inj found) (omega arith, start-Serves orders 0)

publish-consume_from_example :
    (1 ≡ 1 + length {A = Message} [])
    × ((consume_from parts
          (publish parts (λ i. []) clock 7 running orders message).broker
          orders
          0
          1).0
        ≡ ok (stored false (stamp 9 (produced_at 7 message)), 2))
unfolding new_broker new_codec default_config lookup same_key
publish-consume_from_example =
    publish-consume_from parts (λ i. []) clock 7 running orders message 0 1 tt 1 []
      list_wal-ReadsBack noop-IsLossless (omega arith) message-IsPlain refl (λ p o. refl) held
      publish-succeeds

sent-IsPlain : (v : ℕ) → IsPlain (record message { value = v ∷ [] })
sent-IsPlain v = record {
  is_message = record {
    priority_byte = omega arith;
    timestamp_word = omega arith;
    produce_time_word = omega arith;
    append_time_word = omega arith;
    key_length = omega arith;
  };
  no_batch = λ e. omega (arith, e);
  no_redirect = λ e. omega (arith, e);
}

noop-opens :
    (b : Broker parts) (m : Message) → b.codec ≡ noop_codec → decompress_message parts b m ≡ some m
unfolding decompress_message
noop-opens b m e = elim (Bool-cases m.batch_decoded) [
  | inl h ↦ ground (arith, h)
  | inr h ↦ ground (arith, h, ap (λ (c : Codec). c.decode m.value) e)
]

abbrev sent : List Message
sent = message ∷ record message { value = 6 ∷ [] } ∷ []

-- A partition of two messages, and the broker that has it and no offset of the group.
abbrev filled : Partition ListLog
filled = (append_batch list_wal (λ i. []) clock (partition orders 0) sent).partition

abbrev view : List Message
view = map (stored false) (map (stamp 9) sent)

filled-succeeds :
    (append_batch list_wal (λ i. []) clock (partition orders 0) sent).result
    ≡ Partition.ok (1 ∷ 2 ∷ [])
unfolding append_batch commit_batch stamp plain_records ListLog.write_batch ListLog.runs_from
    offsets_from
filled-succeeds = refl

filled-Serves : Serves list_wal filled 1 view
filled-Serves =
    append_batch-Serves list_wal (λ i. []) clock (partition orders 0) sent (1 ∷ 2 ∷ []) 1 []
      list_wal-ReadsBack (omega arith) (omega arith) (sent-IsPlain 5, (sent-IsPlain 6, tt))
      (start-Serves orders 0) filled-succeeds

filled-next : filled.next_offset ≡ 3
filled-next = filled-Serves.ends

abbrev store : OffsetStore parts.badger
store = record { db = 0; cache = []; last_commit = []; dump_interval = pos 0 }

abbrev serving : Broker parts
serving = record running {
  topics = (orders, record (topic orders) { partitions = filled ∷ [] }) ∷ [];
  offset_store = some store;
}

serving-Ready : Ready parts orders 0 filled tt noop_codec serving store
unfolding lookup same_key get_partition new_broker default_config new_codec
serving-Ready = record {
  topic = record (topic orders) { partitions = filled ∷ [] };
  known = refl;
  at = refl;
  sched = refl;
  codec_kept = refl;
  stored = refl;
}

view-Opens : Opens parts orders 0 filled tt noop_codec view view
view-Opens = record { same_length = refl; opens = λ k m e. (m, e, (λ b. noop-opens b m)) }

polls-take_all_example :
    (polls parts orders (103 ∷ []) 0 3 (λ i. pos i) 1 serving ≡ take (3 * 1) (drop 0 view))
    × (length view ≤ 0 + 3 * 1
        → polls parts orders (103 ∷ []) 0 3 (λ i. pos i) 1 serving ≡ drop 0 view)
unfolding start_offset load lookup
polls-take_all_example =
    polls-take_all parts orders (103 ∷ []) 0 filled tt noop_codec 1 view view (λ p o. refl)
      filled-Serves (omega (arith, filled-next)) (omega (arith, filled-next)) view-Opens 3
      (λ i. pos i) 1 0 serving store serving-Ready refl (omega arith)
