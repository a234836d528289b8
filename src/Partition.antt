-- ===== src/Partition.antt =====
-- pkg/broker/partition.go: a partition over its write-ahead log. A method returns the new partition
-- beside its results; its critical section is undisturbed. The log is a parameter, and so are the
-- readings of the clock and what the buffer pool hands out.
pub mod Methods
pub mod Retention
pub mod Expiry
pub mod SizeLimit
pub mod Payload
pub mod Records
pub mod View
pub mod Batches
pub mod Packed
pub mod History
pub mod Calls
pub mod Order
pub mod Misread
pub mod Rebuild
mod Tests
mod LogTests
use nya_queue.Prelude.{
  ℕ, zero, suc, ◌+◌, ◌-◌, ◌*◌, ◌%◌, Bool, true, false, ◌||◌, Option, none, some, List, [], ◌∷◌,
  ◌++◌, map, ltb, leb, ◌≡◌, ◌⊎◌, inl, inr, refl, ◌==◌, not, if◌then◌else◌, length, get_or, take,
  drop, replicate,
}
use nya_queue.Prelude.Int.{ℤ, pos}
use nya_queue.Prelude.Words.{mod32, add64, sub64, signed64}
use nya_queue.Bytes.{be_bytes, be_value, slice, write_at}
use nya_queue.EntryRing.{Time}
use nya_queue.Message
use nya_queue.Message.{Message, MessageHeader, encoded_size, marshal, marshal_pooled}
use nya_queue.Message.{unmarshal_message, unmarshal_header}
use nya_queue.PriorityIndex.{PriorityIndex, new_priority_index, add, len}
use nya_queue.Codec.{Codec}
use nya_queue.Wal.{Wal, Batch}

abbrev pub wal_batch_magic : ℕ
wal_batch_magic = 0xba

abbrev pub wal_redirect_magic : ℕ
wal_redirect_magic = 0xff

-- pkg/broker/config.go
pub data ScheduleMode : Type 0 where
  fifo strict_priority dqn_adaptive : ScheduleMode

pub data Error : Type 0 where
  wal_open wal_last_index wal_write batch_compress : Error
  wal_read : ℕ → Error
  empty_entry : ℕ → Error
  corrupt_redirect : ℕ → Error
  not_batch : Error
  index_out_of_range : ℕ → ℕ → Error
  batch_decompress : Error
  corrupt_payload : ℕ → Error
  message_cut : ℕ → Error
  index_not_found : ℕ → Error
  bad_message : Message.Error → Error
  wal_truncate : Error

pub data Result {ℓ} (A : Type ℓ) : Type ℓ where
  ok : A → Result A
  err : Error → Result A

pub Result-cases :
    {A : Type 0} (r : Result A) → ((e : Error) × (r ≡ err e)) ⊎ ((a : A) × (r ≡ ok a))
Result-cases (err e) = inl (e, refl)
Result-cases (ok a) = inr (a, refl)

abbrev pub lift {ℓ} : {A : Type ℓ} → Message.Result A → Result A
lift (Message.ok a) = ok a
lift (Message.err e) = err (bad_message e)

-- The clock readings of one call: `appendTime`, the time that the write took, and `now`.
pub record Clock : Type 0 where
  pub append_time : ℕ
  pub flush : ℕ
  pub arrived : Time

pub record Partition (Log : Type 0) : Type 0 where
  pub id : ℕ
  pub topic_name : List ℕ
  pub log : Log
  pub next_offset : ℕ
  pub priority_index : Option PriorityIndex
  pub schedule_mode : ScheduleMode
  pub last_flush_ns : ℕ
  pub batch_codec : Option Codec

-- `msg.Header.AppendTime = appendTime`
unfoldable pub stamp : ℕ → Message → Message
stamp t m = let h = m.header in record m { header = record h { append_time = t } }

-- The loop that adds the messages of a batch to the index.
unfoldable pub index_all : PriorityIndex → List Message → List ℕ → Time → PriorityIndex
index_all pi [] offsets now = pi
index_all pi (m ∷ msgs) [] now = pi
index_all pi (m ∷ msgs) (o ∷ offsets) now =
    index_all (add pi (pos m.header.priority) o now).1 msgs offsets now

-- The loop of `AppendBatch`: the records with their offsets, from `next` on. `pool i` is what the
-- buffer pool hands out for the `i`-th message.
unfoldable pub plain_records : (ℕ → List ℕ) → ℕ → ℕ → List Message → Batch
plain_records pool i next [] = []
plain_records pool i next (m ∷ msgs) =
    (next, marshal_pooled (pool i) m) ∷ plain_records pool (i + 1) (add64 next 1) msgs

-- The offsets that a loop of `n` rounds hands out, and the value of `nextOffset` behind it.
unfoldable pub offsets_from : ℕ → ℕ → List ℕ
offsets_from next zero = []
offsets_from next (suc n) = next ∷ offsets_from (add64 next 1) n

unfoldable pub advance : ℕ → ℕ → ℕ
advance next zero = next
advance next (suc n) = advance (add64 next 1) n

-- `totalPayload`
unfoldable pub payload_size : List Message → ℕ
payload_size [] = 0
payload_size (m ∷ msgs) = encoded_size m + 4 + payload_size msgs

-- The loop of `AppendBatchCompressed` that fills the payload from `off` on.
unfoldable pub fill_payload : List ℕ → ℕ → List Message → List ℕ
fill_payload payload off [] = payload
fill_payload payload off (m ∷ msgs) =
    let encoded = marshal m in
    let with_length = write_at payload off (be_bytes 4 (length encoded % mod32)) in
    fill_payload (write_at with_length (off + 4) encoded) (off + 4 + length encoded) msgs

unfoldable pub payload_of : List Message → List ℕ
payload_of msgs = fill_payload (replicate (payload_size msgs) 0) 0 msgs

-- The record at the first offset of a compressed batch of `n` messages.
unfoldable pub batch_record : ℕ → List ℕ → List ℕ
batch_record n compressed = wal_batch_magic ∷ (be_bytes 4 (n % mod32) ++ compressed)

-- The record at the `i`-th offset of a batch.
unfoldable pub redirect_record : ℕ → ℕ → List ℕ
redirect_record base i = wal_redirect_magic ∷ (be_bytes 8 base ++ be_bytes 4 (i % mod32))

-- `n` rounds of the loop that writes the redirects, from `i` on.
unfoldable pub redirect_records : ℕ → ℕ → ℕ → ℕ → Batch
redirect_records base i next zero = []
redirect_records base i next (suc n) =
    (next, redirect_record base i) ∷ redirect_records base (i + 1) (add64 next 1) n

-- The loop of `readFromBatchData`: `left` rounds from message `i` on, the last of them at `index`.
unfoldable pub find_message : List ℕ → ℕ → ℕ → ℕ → ℕ → Result Message
find_message payload index i off zero = err (index_not_found index)
find_message payload index i off (suc left) =
    let msg_len = be_value (slice payload off 4) in
    let skip = find_message payload index (i + 1) (off + 4 + msg_len) left in
    let found : Result Message =
      if ltb (length payload) (off + 4 + msg_len)
      then err (message_cut i)
      else elim (unmarshal_message (slice payload (off + 4) msg_len)) [
        | Message.ok m ↦ ok (record m { batch_decoded = true })
        | Message.err e ↦ err (bad_message e)
      ] in
    if ltb (length payload) (off + 4)
    then err (corrupt_payload i)
    else if i == index
    then found
    else skip

unfoldable pub read_from_batch_data : Option Codec → List ℕ → ℕ → Result Message
read_from_batch_data codec bytes index =
    let count = be_value (slice bytes 1 4) in
    let compressed = drop 5 bytes in
    let payload : Option (List ℕ) = elim codec [
      | some c ↦ c.decode compressed
      | none ↦ some compressed
    ] in
    if ltb (length bytes) 5 || not (get_or bytes 0 0 == wal_batch_magic)
    then err not_batch
    else if leb count index
    then err (index_out_of_range index count)
    else elim payload [
      | none ↦ err batch_decompress
      | some p ↦ find_message p index 0 0 (index + 1)
    ]
