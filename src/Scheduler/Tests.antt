-- ===== src/Scheduler/Tests.antt =====
-- The theorems on the schedulers at a partition of two messages.
use nya_queue.Prelude.{ℕ, ◌≡◌, refl, none, some, List, [], ◌∷◌, arith, false, ◌==◌, if◌then◌else◌}
use nya_queue.Prelude.Int.{pos}
use nya_queue.Bytes.{be_bytes, be_value_from, write_at}
use nya_queue.Message.{Message, marshal, unmarshal_message, header_at}
use nya_queue.EntryRing.{zero_entry, linearize, copy_out}
use nya_queue.PriorityIndex.{Level, PriorityIndex}
use nya_queue.PriorityIndex.Levels.{total_size}
use nya_queue.PriorityIndex.Invariant.{IsValid}
use nya_queue.PriorityIndex.Delivery.{pending, by_priority}
use nya_queue.Wal.{entry_at}
use nya_queue.Wal.ListLog
use nya_queue.Wal.ListLog.{ListLog, list_wal, list_wal-ReadsBack}
use nya_queue.Partition.{
  ScheduleMode, Clock, Partition, stamp, plain_records, advance, offsets_from, lift,
}
use nya_queue.Partition
use nya_queue.Partition.Methods.{append_batch, commit_batch, read_message, read_record}
use nya_queue.Partition.View.{Serves}
use nya_queue.Partition.Batches.{stored}
use nya_queue.Partition.History.{append_batch-Serves}
use nya_queue.Scheduler.{err, no_messages, next_fifo}
use nya_queue.Scheduler.Fifo.{consume_fifo, consume_fifo-Serves}
use nya_queue.Scheduler.Strict.{consume_strict, Leads, consume_strict-pending}

abbrev message : ℕ → ℕ → Message
message priority byte = record {
  header = record { priority = priority; timestamp = 258; produce_time = 7; append_time = 9 };
  key = 107 ∷ [];
  value = byte ∷ [];
  batch_decoded = false;
}

abbrev empty : Partition ListLog
empty = record {
  id = 0;
  topic_name = 116 ∷ [];
  log = record { entries = []; first = 1; last = 0 };
  next_offset = 1;
  priority_index = none;
  schedule_mode = ScheduleMode.fifo;
  last_flush_ns = 0;
  batch_codec = none;
}

abbrev clock : Clock
clock = record { append_time = 9; flush = 3; arrived = pos 20 }

abbrev sent : List Message
sent = message 3 1 ∷ message 7 2 ∷ []

abbrev filled : Partition ListLog
filled = (append_batch list_wal (λ i. []) clock empty sent).partition

empty-Serves : Serves list_wal empty 1 []
unfolding entry_at
empty-Serves = record {
  ends = refl;
  reads = λ k m e. absurd (ground (arith, e));
  back = λ i bytes lt e. absurd (ground (arith, e));
}

filled-succeeds :
    (append_batch list_wal (λ i. []) clock empty sent).result ≡ Partition.ok (1 ∷ 2 ∷ [])
unfolding append_batch commit_batch stamp plain_records ListLog.write_batch ListLog.runs_from
    offsets_from
filled-succeeds = refl

filled-Serves : Serves list_wal filled 1 sent
unfolding stored stamp
filled-Serves =
    append_batch-Serves list_wal (λ i. []) clock empty sent (1 ∷ 2 ∷ []) 1 [] list_wal-ReadsBack
      (omega arith) (omega arith) (omega arith, (omega arith, tt)) empty-Serves filled-succeeds

filled-next : filled.next_offset ≡ 3
unfolding append_batch commit_batch stamp plain_records ListLog.write_batch ListLog.runs_from
    advance
filled-next = refl

consume_fifo-Serves_example :
    (consume_fifo list_wal 5 filled 1 ≡ sent) × (next_fifo list_wal filled 3 ≡ (err no_messages, 3))
consume_fifo-Serves_example =
    consume_fifo-Serves list_wal 5 filled 1 sent filled-Serves (omega (arith, filled-next))
      (omega (arith, filled-next)) (omega arith)

-- Both messages are pending, the second at the higher priority.
abbrev level_with : List ℕ → Level
level_with [] = record {
  ring = record { buf = zero_entry ∷ []; head = 0; size = 0; cap = 1 };
  count = 0;
}
level_with (o ∷ os) = record {
  ring = record {
    buf = record { wal_offset = o; arrived_at = pos 20 } ∷ [];
    head = 0;
    size = 1;
    cap = 1;
  };
  count = 1;
}

abbrev vacant : Level
vacant = level_with []

abbrev index : PriorityIndex
index = record {
  levels =
      vacant
      ∷ vacant
      ∷ vacant
      ∷ level_with (1 ∷ [])
      ∷ vacant
      ∷ vacant
      ∷ vacant
      ∷ level_with (2 ∷ [])
      ∷ vacant
      ∷ vacant
      ∷ [];
  total = 2;
  max_per_level = pos 1;
}

index-IsValid : IsValid 1 index
unfolding total_size
index-IsValid = omega arith

abbrev indexed : Partition ListLog
indexed = record empty {
  log = record {
    entries = (1, marshal (message 3 1)) ∷ (2, marshal (message 7 2)) ∷ [];
    first = 1;
    last = 2;
  };
  next_offset = 3;
  priority_index = some index;
}

abbrev at : ℕ → Message
at n = if n == 1 then message 3 1 else message 7 2

indexed-Leads : Leads list_wal indexed at (pending index)
unfolding by_priority linearize copy_out read_message read_record entry_at marshal write_at be_bytes
    unmarshal_message header_at be_value_from
indexed-Leads = (refl, (refl, tt))

consume_strict-pending_example :
    consume_strict list_wal 3 indexed ≡ (message 7 2, 2) ∷ (message 3 1, 1) ∷ []
unfolding by_priority linearize copy_out
consume_strict-pending_example =
    consume_strict-pending list_wal 3 1 indexed index at refl index-IsValid indexed-Leads
      (omega arith)
