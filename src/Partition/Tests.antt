-- ===== src/Partition/Tests.antt =====
-- The theorems of partitions at concrete logs.
use nya_queue.Prelude.{
  ℕ, ◌+◌, ◌<◌, ◌≡◌, ◌≢◌, inr, refl, Bool, true, false, Option, none, some, List, [], ◌∷◌, ◌++◌,
  arith, length, All,
}
use nya_queue.Prelude.Int.{pos}
use nya_queue.Prelude.Words.{mod64}
use nya_queue.Message.{Message, encoded_size}
use nya_queue.Codec.{Codec, IsLossless}
use nya_queue.Wal.{Wal, Batch, entry_at, WritesInOrder}
use nya_queue.Wal.ListLog
use nya_queue.Wal.ListLog.{
  ListLog, list_wal, list_wal-ReadsBack, list_wal-WritesInOrder, list_wal-Truncates,
}
use nya_queue.Partition.{
  ScheduleMode, ok, err, wal_write, Clock, Partition, stamp, plain_records, advance, offsets_from,
  redirect_records,
}
use nya_queue.Partition.Methods.{commit_batch, append_batch, append_batch_compressed, read_message}
use nya_queue.Partition.View.{Serves}
use nya_queue.Partition.Batches.{stored}
use nya_queue.Partition.Calls.{
  Call, plain, packed, call, run, contents, all_contents, IsAllowed, run-Serves,
}
use nya_queue.Partition.Order.{IsRefused, results, batch_of, total, after_failed_write-IsRefused}
use nya_queue.Partition.Misread.{is_from_batch, append_batch-misread}

-- A codec that puts a byte before what it encodes.
abbrev marked_codec : Codec
marked_codec = record { encode = λ src. some (7 ∷ src); decode = decode }
  where
    decode : List ℕ → Option (List ℕ)
    decode [] = none
    decode (b ∷ bs) = some bs

marked_codec-IsLossless : IsLossless marked_codec
marked_codec-IsLossless src out e = ground (arith, e)

abbrev start : Partition ListLog
start = record {
  id = 0;
  topic_name = 116 ∷ [];
  log = record { entries = []; first = 1; last = 0 };
  next_offset = 1;
  priority_index = none;
  schedule_mode = ScheduleMode.fifo;
  last_flush_ns = 0;
  batch_codec = some marked_codec;
}

abbrev message : ℕ → ℕ → Message
message priority byte = record {
  header = record { priority = priority; timestamp = 258; produce_time = 7; append_time = 0 };
  key = 107 ∷ [];
  value = byte ∷ [];
  batch_decoded = false;
}

abbrev clock : Clock
clock = record { append_time = 9; flush = 3; arrived = pos 20 }

abbrev calls : List Call
calls =
    plain (λ i. []) clock (message 3 1 ∷ message 4 2 ∷ [])
    ∷ packed clock (message 0xba 3 ∷ message 0xff 4 ∷ [])
    ∷ []

abbrev finish : Partition ListLog
finish = elim (run list_wal marked_codec start calls) [ some q ↦ q | none ↦ start ]

start-Serves : Serves list_wal start 1 []
unfolding entry_at
start-Serves = record {
  ends = refl;
  reads = λ k m e. absurd (ground (arith, e));
  back = λ i bytes lt e. absurd (ground (arith, e));
}

run-calls : run list_wal marked_codec start calls ≡ some finish
unfolding run call append_batch append_batch_compressed commit_batch stamp plain_records
    ListLog.write_batch ListLog.runs_from advance offsets_from redirect_records
run-calls = refl

calls-IsAllowed : All IsAllowed calls
unfolding IsAllowed encoded_size
calls-IsAllowed = (
  (omega arith, (omega arith, (omega arith, tt))),
  ((omega arith, omega arith, ((omega arith, omega arith), ((omega arith, omega arith), tt))), tt),
)

calls_room : 1 + length ([] ++ all_contents calls) < mod64
unfolding all_contents contents
calls_room = omega arith

run-Serves_example : Serves list_wal finish 1 (all_contents calls)
run-Serves_example =
    run-Serves list_wal marked_codec calls start finish 1 [] list_wal-ReadsBack
      marked_codec-IsLossless refl calls_room calls-IsAllowed start-Serves run-calls

-- One plain message of priority 0xFF: the record at its offset is taken for a redirect.
abbrev misread_batch : List Message
misread_batch = message 3 1 ∷ message 0xff 2 ∷ []

misread-succeeds :
    (append_batch list_wal (λ i. []) clock start misread_batch).result ≡ ok (1 ∷ 2 ∷ [])
unfolding append_batch commit_batch stamp plain_records ListLog.write_batch ListLog.runs_from
    offsets_from
misread-succeeds = refl

append_batch-misread_example :
    let out =
      read_message list_wal
        (append_batch list_wal (λ i. []) clock start misread_batch).partition
        2 in
    (is_from_batch out ≡ true) × (out ≢ ok (stored false (stamp 9 (message 0xff 2))))
append_batch-misread_example =
    append_batch-misread list_wal (λ i. []) clock start misread_batch (1 ∷ 2 ∷ []) 1
      (message 0xff 2) list_wal-ReadsBack (omega arith) refl (inr refl) misread-succeeds

-- A log whose first write fails, and that works from then on.
abbrev flaky_wal : Wal
flaky_wal = record {
  Log = Bool × ListLog;
  read = λ log i. ListLog.read log.1 i;
  write_batch = write_batch;
  first_index = λ log. some log.1.first;
  last_index = λ log. some log.1.last;
  truncate_front = λ log i. let (done, l) = ListLog.truncate_front log.1 i in (done, (log.0, l));
}
  where
    write_batch : Bool × ListLog → Batch → Bool × (Bool × ListLog)
    write_batch (true, l) b = (false, (false, l))
    write_batch (false, l) b = let (done, l') = ListLog.write_batch l b in (done, (false, l'))

flaky_wal-WritesInOrder : WritesInOrder flaky_wal
flaky_wal-WritesInOrder (true, l) log' b done last e at =
    (λ yes. absurd (ground (arith, e, yes)), λ out. (ground (arith, e), ground (arith, e, at)))
flaky_wal-WritesInOrder (false, l) (f, l') b done last e at =
    list_wal-WritesInOrder l l' b done last (ground (arith, e)) at

abbrev flaky_start : Partition (Bool × ListLog)
flaky_start = record {
  id = 0;
  topic_name = 116 ∷ [];
  log = (true, record { entries = []; first = 1; last = 0 });
  next_offset = 1;
  priority_index = none;
  schedule_mode = ScheduleMode.fifo;
  last_flush_ns = 0;
  batch_codec = none;
}

abbrev one_call : Call
one_call = plain (λ i. []) clock (message 3 1 ∷ [])

flaky-fails : (call flaky_wal marked_codec flaky_start one_call).result ≡ err wal_write
unfolding call append_batch commit_batch
flaky-fails = refl

flaky-stays :
    flaky_wal.last_index (call flaky_wal marked_codec flaky_start one_call).partition.log ≡ some 0
unfolding call append_batch commit_batch
flaky-stays = refl

flaky_batches : All (λ y. 0 < length (batch_of y)) (one_call ∷ one_call ∷ one_call ∷ [])
unfolding batch_of
flaky_batches = (omega arith, (omega arith, (omega arith, tt)))

flaky_room : 1 + total (one_call ∷ one_call ∷ one_call ∷ []) < mod64
unfolding batch_of total
flaky_room = omega arith

after_failed_write-IsRefused_example : All IsRefused (
    results flaky_wal marked_codec
      (call flaky_wal marked_codec flaky_start one_call).partition
      (one_call ∷ one_call ∷ []))
after_failed_write-IsRefused_example =
    after_failed_write-IsRefused flaky_wal marked_codec flaky_start one_call
      (one_call ∷ one_call ∷ []) 0 flaky_wal-WritesInOrder refl flaky-fails flaky-stays
      flaky_batches flaky_room
