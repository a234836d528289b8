-- ===== src/Partition/Methods.antt =====
-- The methods of `Partition` that append, read and rebuild, over a write-ahead log.
use nya_queue.Prelude.{
  ℕ, zero, suc, ◌+◌, ◌-◌, Bool, Option, none, some, List, [], ◌∷◌, map, ltb, ◌==◌, if◌then◌else◌,
  length, get_or,
}
use nya_queue.Prelude.Int.{pos}
use nya_queue.Prelude.Words.{add64, sub64, signed64}
use nya_queue.Bytes.{be_value, slice}
use nya_queue.Message
use nya_queue.Message.{Message, MessageHeader, encoded_size, unmarshal_message, unmarshal_header}
use nya_queue.PriorityIndex.{PriorityIndex, new_priority_index, add, len}
use nya_queue.Codec.{Codec}
use nya_queue.Wal.{Wal, Batch}
use nya_queue.Partition.{
  wal_batch_magic, wal_redirect_magic, ScheduleMode, wal_open, wal_last_index, wal_write,
  batch_compress, wal_read, empty_entry, corrupt_redirect, bad_message, Result, ok, err, lift,
  Clock, Partition, stamp, index_all, plain_records, offsets_from, advance, batch_record,
  redirect_records, read_from_batch_data, payload_of,
}

-- What `AppendBatch` leaves: the messages are shared with the caller, who sees them stamped.
pub record Appended (Log : Type 0) : Type 0 where
  pub result : Result (List ℕ)
  pub messages : List Message
  pub partition : Partition Log

module _ (w : Wal) where
  open w use {Log, read, write_batch, first_index, last_index}

  -- `opened` is the outcome of `wal.Open`.
  unfoldable pub new_partition : ℕ → List ℕ → ScheduleMode → Option Log → Result (Partition Log)
  new_partition id topic_name mode none = err wal_open
  new_partition id topic_name mode (some log) = elim (last_index log) [
    | none ↦ err wal_last_index
    | some last ↦ ok (record {
      id = id;
      topic_name = topic_name;
      log = log;
      next_offset = add64 last 1;
      priority_index = elim mode [
        | ScheduleMode.fifo ↦ none
        | _ ↦ some (new_priority_index (pos 50_000 ∷ []))
      ];
      schedule_mode = mode;
      last_flush_ns = 0;
      batch_codec = none;
    })
  ]

  unfoldable pub set_batch_codec : Partition Log → Codec → Partition Log
  set_batch_codec p c = record p { batch_codec = some c }

  -- What both append methods do with the records of a batch of messages, which is not empty.
  unfoldable pub commit_batch : Clock → Partition Log → Batch → List Message → Appended Log
  commit_batch clock p records msgs =
      let n = length msgs in
      let offsets = offsets_from p.next_offset n in
      let (done, log) = write_batch p.log records in
      let written : Partition Log = record p {
        log = log;
        next_offset = advance p.next_offset n;
        last_flush_ns = clock.flush;
      } in
      if done
      then record {
        result = ok offsets;
        messages = msgs;
        partition = record written {
          priority_index = elim p.priority_index [
            | none ↦ none
            | some pi ↦ some (index_all pi msgs offsets clock.arrived)
          ];
        };
      }
      else record { result = err wal_write; messages = msgs; partition = written }

  unfoldable pub append_batch : (ℕ → List ℕ) → Clock → Partition Log → List Message → Appended Log
  unfolding commit_batch
  append_batch pool clock p [] = record { result = ok []; messages = []; partition = p }
  append_batch pool clock p (m ∷ ms) =
      let msgs = map (stamp clock.append_time) (m ∷ ms) in
      commit_batch clock p (plain_records pool 0 p.next_offset msgs) msgs

  -- The first offset, which is 0 beside an error.
  unfoldable pub append : (ℕ → List ℕ) → Clock → Partition Log → Message → Result ℕ × Partition Log
  append pool clock p m =
      let out = append_batch pool clock p (m ∷ []) in
      (elim out.result [ ok offsets ↦ ok (get_or offsets 0 0) | err e ↦ err e ], out.partition)

  unfoldable pub append_batch_compressed :
      Clock → Partition Log → List Message → Codec → Appended Log
  append_batch_compressed clock p [] codec = record { result = ok []; messages = []; partition = p }
  append_batch_compressed clock p (m ∷ ms) codec =
      let msgs = map (stamp clock.append_time) (m ∷ ms) in
      let base = p.next_offset in
      elim (codec.encode (payload_of msgs)) [
        | none ↦ record { result = err batch_compress; messages = msgs; partition = p }
        | some compressed ↦
            commit_batch clock p
              ((base, batch_record (length msgs) compressed)
                ∷ redirect_records base 1 (add64 base 1) (length ms))
              msgs
      ]

  unfoldable pub read_from_batch : Partition Log → ℕ → ℕ → Result Message
  read_from_batch p batch_offset index = elim (read p.log batch_offset) [
    | none ↦ err (wal_read batch_offset)
    | some bytes ↦ read_from_batch_data p.batch_codec bytes index
  ]

  unfoldable pub read_record : Partition Log → ℕ → List ℕ → Result Message
  read_record p offset [] = err (empty_entry offset)
  read_record p offset (b ∷ bs) =
      if b == wal_redirect_magic
      then if ltb (length (b ∷ bs)) 13
        then err (corrupt_redirect offset)
        else read_from_batch p (be_value (slice (b ∷ bs) 1 8)) (be_value (slice (b ∷ bs) 9 4))
      else if b == wal_batch_magic
      then read_from_batch_data p.batch_codec (b ∷ bs) 0
      else lift (unmarshal_message (b ∷ bs))

  unfoldable pub read_message : Partition Log → ℕ → Result Message
  read_message p offset = elim (read p.log offset) [
    | none ↦ err (wal_read offset)
    | some bytes ↦ read_record p offset bytes
  ]

  unfoldable pub high_water_mark : Partition Log → ℕ
  high_water_mark p = if p.next_offset == 0 then 0 else sub64 p.next_offset 1

  unfoldable pub queue_depth : Partition Log → ℕ
  queue_depth p = elim p.priority_index [ none ↦ 0 | some pi ↦ len pi ]

  -- `n` rounds of the loop of `Rebuild` from `off` on; an error leaves what was added so far.
  unfoldable pub rebuild_from :
      Log → (ℕ → Bool) → PriorityIndex → ℕ → ℕ → Result (Unit {0}) × PriorityIndex
  rebuild_from log is_committed pi off zero = (ok tt, pi)
  rebuild_from log is_committed pi off (suc n) = elim (read log off) [
    | none ↦ (err (wal_read off), pi)
    | some bytes ↦
        if is_committed off
        then rebuild_from log is_committed pi (off + 1) n
        else elim (unmarshal_header bytes) [
          | Message.err e ↦ (err (bad_message e), pi)
          | Message.ok h ↦
              rebuild_from log is_committed (add pi (pos h.priority) off (signed64 h.timestamp)).1
                (off + 1) n
        ]
  ]

  unfoldable pub rebuild : Partition Log → ℕ → (ℕ → Bool) → Result (Unit {0}) × Partition Log
  rebuild p start is_committed = elim p.priority_index [
    | none ↦ (ok tt, p)
    | some pi ↦
        let (out, pi') = rebuild_from p.log is_committed pi start (p.next_offset - start) in
        (out, record p { priority_index = some pi' })
  ]
