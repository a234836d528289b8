-- ===== src/Partition/LogTests.antt =====
-- The theorems on rebuilding the index and on shortening the log, at concrete logs.
use nya_queue.Prelude.{
  ℕ, ◌<◌, ◌≡◌, ◌≢◌, refl, true, false, none, some, List, [], ◌∷◌, arith, length, take, drop,
}
use nya_queue.Prelude.Int.{pos, ltb_ℤ}
use nya_queue.Bytes.{be_bytes, be_value_from, write_at}
use nya_queue.Message.{Message, marshal, unmarshal_header, header_at}
use nya_queue.PriorityIndex.{PriorityIndex, new_priority_index}
use nya_queue.Wal.{entry_at}
use nya_queue.Wal.ListLog.{ListLog, list_wal, list_wal-Truncates, list_wal-TruncatesInRange}
use nya_queue.Partition.{ScheduleMode, ok, err, wal_truncate, Partition, redirect_record}
use nya_queue.Partition.Methods.{rebuild}
use nya_queue.Partition.Rebuild.{HoldsPlain, rebuild-redirect}
use nya_queue.Partition.Retention.{truncate_before, truncate_oldest_until_size}
use nya_queue.Partition.Expiry.{
  Trimmed, IsStored, old_prefix, is_old, total_size, truncate_before-removes,
  truncate_before-all_old,
}
use nya_queue.Partition.SizeLimit.{excess, truncate_oldest_until_size-removes}

abbrev sent : ℕ → Message
sent time = record {
  header = record { priority = 3; timestamp = time; produce_time = 7; append_time = 8 };
  key = [];
  value = 5 ∷ [];
  batch_decoded = false;
}

-- Three messages at the offsets from 4 on.
abbrev records : List (List ℕ)
records = marshal (sent 10) ∷ marshal (sent 20) ∷ marshal (sent 30) ∷ []

abbrev index : PriorityIndex
index = new_priority_index []

abbrev kept : Partition ListLog
kept = record {
  id = 0;
  topic_name = 116 ∷ [];
  log = record {
    entries = (4, marshal (sent 10)) ∷ (5, marshal (sent 20)) ∷ (6, marshal (sent 30)) ∷ [];
    first = 4;
    last = 6;
  };
  next_offset = 7;
  priority_index = some index;
  schedule_mode = ScheduleMode.strict_priority;
  last_flush_ns = 0;
  batch_codec = none;
}

kept-HoldsPlain : HoldsPlain list_wal kept.log 4 (sent 10 ∷ sent 20 ∷ sent 30 ∷ [])
unfolding entry_at
kept-HoldsPlain = ((refl, omega arith, (refl, omega arith, (refl, omega arith, tt))))

kept-IsStored : IsStored list_wal kept 4 records
unfolding entry_at
kept-IsStored = record {
  from_first = refl;
  to_last = refl;
  first_positive = omega arith;
  some_record = omega arith;
  next = refl;
  holds = (refl, (refl, (refl, tt)));
}

two_old : old_prefix (pos 25) records < length records
unfolding old_prefix is_old unmarshal_header header_at marshal write_at be_bytes be_value_from
two_old = omega arith

truncate_before-removes_example :
    ((truncate_before list_wal kept (pos 25)).0
      ≡ ok (old_prefix (pos 25) records, total_size (take (old_prefix (pos 25) records) records)))
    × Trimmed list_wal
        (truncate_before list_wal kept (pos 25)).1.log
        4
        (old_prefix (pos 25) records)
        records
truncate_before-removes_example =
    truncate_before-removes list_wal kept (pos 25) 4 records list_wal-Truncates
      (list_wal-TruncatesInRange kept.log) kept-IsStored two_old

all_old : old_prefix (pos 31) records ≡ length records
unfolding old_prefix is_old unmarshal_header header_at marshal write_at be_bytes be_value_from
all_old = refl

truncate_before-all_old_example : (truncate_before list_wal kept (pos 31)).0 ≡ err wal_truncate
truncate_before-all_old_example =
    truncate_before-all_old list_wal kept (pos 31) 4 records list_wal-Truncates kept-IsStored
      all_old

-- Each record has 30 bytes.
one_too_many : excess (pos 60) records < length records
unfolding excess total_size marshal write_at be_bytes
one_too_many = omega arith

truncate_oldest_until_size-removes_example :
    ((truncate_oldest_until_size list_wal kept (pos 60)).0
      ≡ ok (excess (pos 60) records, total_size (take (excess (pos 60) records) records)))
    × Trimmed list_wal
        (truncate_oldest_until_size list_wal kept (pos 60)).1.log
        4
        (excess (pos 60) records)
        records
    × (ltb_ℤ (pos 60) (pos (total_size (drop (excess (pos 60) records) records))) ≡ false)
    × ((j : ℕ)
        → j < excess (pos 60) records
        → ltb_ℤ (pos 60) (pos (total_size (drop j records))) ≡ true)
truncate_oldest_until_size-removes_example =
    truncate_oldest_until_size-removes list_wal kept (pos 60) 4 records list_wal-Truncates
      (list_wal-TruncatesInRange kept.log) kept-IsStored one_too_many

all_too_many : excess (pos 20) records ≡ length records
unfolding excess total_size marshal write_at be_bytes
all_too_many = refl

-- What a compressed batch of two messages leaves at its second offset.
abbrev packed_kept : Partition ListLog
packed_kept = record kept {
  log = record {
    entries = (4, marshal (sent 10)) ∷ (5, redirect_record 4 1) ∷ [];
    first = 4;
    last = 5;
  };
  next_offset = 6;
}

redirect_at : entry_at packed_kept.log.entries 5 ≡ some (redirect_record 4 1)
unfolding entry_at
redirect_at = refl

rebuild-redirect_example : (rebuild list_wal packed_kept 4 (λ o. false)).0 ≢ ok tt
rebuild-redirect_example =
    rebuild-redirect list_wal packed_kept index (λ o. false) 4 1 4 1 refl (omega arith) redirect_at
      refl
