-- ===== src/Partition/Misread.antt =====
-- Records begin with a message's priority byte or with a magic number. What reading makes of a
-- message whose priority byte is one of the magic numbers.
use nya_queue.Prelude.{
  ℕ, zero, suc, ◌+◌, ◌<◌, ◌≡◌, ◌≢◌, ◌⊎◌, inl, inr, refl, sym, ap, ◌∙◌, subst, Bool, true, false,
  Option, none, some, Option-cases, drop, List, [], ◌∷◌, arith, map, length, length-map, get_elem?,
  get_or,
}
use nya_queue.Prelude.Elems.{get_elem?-map-some}
use nya_queue.Prelude.Words.{mod64}
use nya_queue.Bytes.{be_value, slice}
use nya_queue.Message.{Message, marshal}
use nya_queue.Codec.{Codec}
use nya_queue.Wal.{Wal, Batch, entry_at, ReadsBack}
use nya_queue.Partition.{
  wal_batch_magic, wal_redirect_magic, Result, ok, err, Clock, Partition, stamp, plain_records,
  find_message, read_from_batch_data,
}
use nya_queue.Partition.Methods.{
  commit_batch, append_batch, read_record, read_from_batch, read_message,
}
use nya_queue.Partition.Records.{entry_at-plain_records}
use nya_queue.Partition.View.{read-commit_batch, read_message-some}
use nya_queue.Partition.Batches.{stored, head-marshal}

-- An error, or a message marked as decoded from a batch.
unfoldable pub is_from_batch : Result Message → Bool
is_from_batch (ok m) = m.batch_decoded
is_from_batch (err e) = true

find_message-is_from_batch :
    (left : ℕ) (payload : List ℕ) (index i off : ℕ)
    → is_from_batch (find_message payload index i off left) ≡ true
unfolding find_message is_from_batch
find_message-is_from_batch zero payload index i off = refl
find_message-is_from_batch (suc left) payload index i off = ground (
  arith,
  find_message-is_from_batch left payload index (i + 1) (off + 4 + be_value (slice payload off 4)),
)

read_from_batch_data-is_from_batch :
    (codec : Option Codec) (bytes : List ℕ) (index : ℕ)
    → is_from_batch (read_from_batch_data codec bytes index) ≡ true
unfolding read_from_batch_data is_from_batch
read_from_batch_data-is_from_batch none bytes index =
    ground (arith, find_message-is_from_batch (index + 1) (drop 5 bytes) index 0 0)
read_from_batch_data-is_from_batch (some c) bytes index =
    elim (Option-cases (c.decode (drop 5 bytes))) [
      | inl e ↦ ground (arith, e)
      | inr (p, e) ↦ ground (arith, e, find_message-is_from_batch (index + 1) p index 0 0)
    ]

module _ (w : Wal) where
  read_from_batch-is_from_batch :
      (p : Partition w.Log) (base index : ℕ) → is_from_batch (read_from_batch w p base index) ≡ true
  unfolding read_from_batch is_from_batch
  read_from_batch-is_from_batch p base index = elim (Option-cases (w.read p.log base)) [
    | inl e ↦ ground (arith, e)
    | inr (b, e) ↦ ground (arith, e, read_from_batch_data-is_from_batch p.batch_codec b index)
  ]

  -- A record that begins with a magic number is never read as a plain message.
  read_record-is_from_batch :
      (p : Partition w.Log) (offset : ℕ) (bytes : List ℕ)
      → (get_or bytes 0 0 ≡ wal_batch_magic) ⊎ (get_or bytes 0 0 ≡ wal_redirect_magic)
      → is_from_batch (read_record w p offset bytes) ≡ true
  unfolding read_record is_from_batch
  read_record-is_from_batch p offset [] h = refl
  read_record-is_from_batch p offset (b ∷ bs) h = ground (
    arith,
    h,
    read_from_batch_data-is_from_batch p.batch_codec (b ∷ bs) 0,
    read_from_batch-is_from_batch p (be_value (slice (b ∷ bs) 1 8)) (be_value (slice (b ∷ bs) 9 4)),
  )

  -- `AppendBatch` takes messages of any priority. Let the log read back what it has written, and the
  -- offsets stay below 2 ^ 64. If a message of priority 0xBA or 0xFF was appended without an error,
  -- then reading at the offset it was given returns an error or a message that is marked as decoded
  -- from a batch, and so not the message that was appended.
  pub append_batch-misread :
      (pool : ℕ → List ℕ) (clock : Clock) (p : Partition w.Log) (msgs : List Message) (os : List ℕ)
      (k : ℕ) (m : Message)
      → ReadsBack w
      → p.next_offset + length msgs < mod64
      → get_elem? msgs k ≡ some m
      → (m.header.priority ≡ wal_batch_magic) ⊎ (m.header.priority ≡ wal_redirect_magic)
      → (append_batch w pool clock p msgs).result ≡ ok os
      → let out = read_message w (append_batch w pool clock p msgs).partition (p.next_offset + k) in
        (is_from_batch out ≡ true) × (out ≢ ok (stored false (stamp clock.append_time m)))
  unfolding append_batch stored stamp is_from_batch
  append_batch-misread pool clock p [] os k m hw room at magic e = absurd (ground (arith, at))
  append_batch-misread pool clock p (x ∷ xs) os k m hw room at magic e =
      (marked_out, λ wrong. absurd (ground (arith, marked_out, ap is_from_batch wrong)))
    where
      s : Message
      s = stamp clock.append_time m

      stamped : List Message
      stamped = map (stamp clock.append_time) (x ∷ xs)

      records : Batch
      records = plain_records pool 0 p.next_offset stamped

      q : Partition w.Log
      q = (commit_batch w clock p records stamped).partition

      written : entry_at records (p.next_offset + k) ≡ some (marshal s)
      written =
          entry_at-plain_records stamped pool 0 p.next_offset k s
            (omega (arith, room, length-map (stamp clock.append_time) (x ∷ xs)))
            (get_elem?-map-some (stamp clock.append_time) (x ∷ xs) k m at)

      here : w.read q.log (p.next_offset + k) ≡ some (marshal s)
      here = ground (
        arith,
        (read-commit_batch w clock p records stamped os (p.next_offset + k) hw e).0,
        written,
      )

      marked :
          (get_or (marshal s) 0 0 ≡ wal_batch_magic) ⊎ (get_or (marshal s) 0 0 ≡ wal_redirect_magic)
      marked =
          subst (λ b. (b ≡ wal_batch_magic) ⊎ (b ≡ wal_redirect_magic)) (sym (head-marshal s)) magic

      marked_out : is_from_batch (read_message w q (p.next_offset + k)) ≡ true
      marked_out =
          ap is_from_batch (read_message-some w q (p.next_offset + k) (marshal s) here)
          ∙ read_record-is_from_batch q (p.next_offset + k) (marshal s) marked
