-- ===== src/Partition/Order.antt =====
-- `AppendBatch` advances `nextOffset` before it writes. What that means after a write that failed.
use nya_queue.Prelude.{
  ℕ, ◌+◌, ◌≤◌, ◌<◌, ◌≡◌, ◌⊎◌, refl, sym, ap, ◌∙◌, subst, Option-cases, inl, inr, false, some, List,
  [], ◌∷◌, arith, map, length, length-map, All,
}
use nya_queue.Prelude.Words.{mod64}
use nya_queue.Message.{Message}
use nya_queue.Codec.{Codec}
use nya_queue.Wal.{Wal, Batch, WritesInOrder}
use nya_queue.Partition.{
  Result, batch_compress, wal_write, err, Clock, Partition, stamp, plain_records, payload_of,
}
use nya_queue.Partition.History.{append_batch_compressed-some, append_batch_compressed-none}
use nya_queue.Partition.Packed.{packed_records}
use nya_queue.Partition.Methods.{Appended, commit_batch, append_batch}
use nya_queue.Partition.View.{advance-eq}
use nya_queue.Partition.Calls.{Call, plain, packed, call}

-- What no call may do any more: hand out an offset.
unfoldable pub IsRefused : Result (List ℕ) → Type 0
IsRefused r = (r ≡ err wal_write) ⊎ (r ≡ err batch_compress)

-- The messages of a call.
unfoldable pub batch_of : Call → List Message
batch_of (plain pool clock msgs) = msgs
batch_of (packed clock msgs) = msgs

unfoldable pub total : List Call → ℕ
total [] = 0
total (x ∷ xs) = length (batch_of x) + total xs

module _ (w : Wal) where
  -- The next offset is not the one that the log accepts.
  unfoldable pub IsAhead : Partition w.Log → Type 0
  IsAhead p = (last : ℕ) × (w.last_index p.log ≡ some last) × (last + 1 < p.next_offset)

  -- The records of a batch begin at an offset.
  abbrev pub StartsAt : ℕ → Batch → Type 0
  StartsAt o [] = ⊥
  StartsAt o ((j, _) ∷ b) = j ≡ o

  -- The log refuses a batch that begins behind the offset it accepts.
  write_batch-refuses :
      (log : w.Log) (b : Batch) (o last : ℕ)
      → WritesInOrder w
      → StartsAt o b
      → w.last_index log ≡ some last
      → last + 1 < o
      → ((w.write_batch log b).0 ≡ false) × (w.last_index (w.write_batch log b).1 ≡ some last)
  write_batch-refuses log [] o last ordered starts at ahead = absurd starts
  write_batch-refuses log ((j, bytes) ∷ b) o last ordered starts at ahead =
      let out = w.write_batch log ((j, bytes) ∷ b) in
      (ordered log out.1 ((j, bytes) ∷ b) out.0 last refl at).1
        (λ runs. omega (arith, runs.0, starts, ahead))

  commit_batch-IsAhead :
      (clock : Clock) (p : Partition w.Log) (records : Batch) (msgs : List Message)
      → WritesInOrder w
      → StartsAt p.next_offset records
      → p.next_offset + length msgs < mod64
      → IsAhead p
      → ((commit_batch w clock p records msgs).result ≡ err wal_write)
        × IsAhead (commit_batch w clock p records msgs).partition
        × ((commit_batch w clock p records msgs).partition.next_offset
            ≡ p.next_offset + length msgs)
  unfolding commit_batch IsAhead
  commit_batch-IsAhead clock p records msgs ordered starts room (last, at, ahead) =
      let (refused, stays) =
        write_batch-refuses p.log records p.next_offset last ordered starts at ahead in
      (
        ground (arith, refused),
        (
          last,
          ground (arith, refused, stays),
          ground (arith, refused, ahead, advance-eq p.next_offset (length msgs) room),
        ),
        ground (arith, refused, advance-eq p.next_offset (length msgs) room),
      )

  -- A write that fails and leaves the last index leaves a partition that was in step ahead of its log.
  commit_batch_failed-IsAhead :
      (clock : Clock) (p : Partition w.Log) (records : Batch) (msgs : List Message) (last : ℕ)
      → p.next_offset ≡ last + 1
      → 0 < length msgs
      → p.next_offset + length msgs < mod64
      → (commit_batch w clock p records msgs).result ≡ err wal_write
      → w.last_index (commit_batch w clock p records msgs).partition.log ≡ some last
      → IsAhead (commit_batch w clock p records msgs).partition
        × ((commit_batch w clock p records msgs).partition.next_offset
            ≡ p.next_offset + length msgs)
  unfolding commit_batch IsAhead
  commit_batch_failed-IsAhead clock p records msgs last step some_messages room failed stays = (
    (last, stays, ground (arith, refused, step, advance-eq p.next_offset (length msgs) room)),
    ground (arith, refused, advance-eq p.next_offset (length msgs) room),
  )
    where
      refused : (w.write_batch p.log records).0 ≡ false
      refused = ground (arith, failed)

  call-IsAhead :
      (c : Codec) (p : Partition w.Log) (x : Call)
      → WritesInOrder w
      → 0 < length (batch_of x)
      → p.next_offset + length (batch_of x) < mod64
      → IsAhead p
      → IsRefused (call w c p x).result
        × IsAhead (call w c p x).partition
        × ((call w c p x).partition.next_offset ≤ p.next_offset + length (batch_of x))
  unfolding IsRefused batch_of call append_batch plain_records packed_records
  call-IsAhead c p (plain pool clock []) ordered some_messages room ahead = absurd (omega arith)
  call-IsAhead c p (plain pool clock (m ∷ ms)) ordered some_messages room ahead =
      let stamped = map (stamp clock.append_time) (m ∷ ms) in
      let r =
        commit_batch-IsAhead clock p (plain_records pool 0 p.next_offset stamped) stamped ordered
          refl (omega (arith, room, length-map (stamp clock.append_time) (m ∷ ms))) ahead in
      (inl r.0, r.1, omega (arith, r.2, length-map (stamp clock.append_time) (m ∷ ms)))
  call-IsAhead c p (packed clock []) ordered some_messages room ahead = absurd (omega arith)
  call-IsAhead c p (packed clock (m ∷ ms)) ordered some_messages room ahead =
      let stamped = map (stamp clock.append_time) (m ∷ ms) in
      let Outcome : Appended w.Log → Type 0 = λ out.
        IsRefused out.result
        × IsAhead out.partition
        × (out.partition.next_offset ≤ p.next_offset + length (m ∷ ms)) in
      elim (Option-cases (c.encode (payload_of stamped))) [
        | inl failed ↦
            subst Outcome (sym (append_batch_compressed-none w clock p m ms c failed))
              (inr refl, ahead, omega arith)
        | inr (compressed, encoded) ↦
            let r =
              commit_batch-IsAhead clock p
                (packed_records p.next_offset (length (map (stamp clock.append_time) ms))
                  compressed)
                stamped ordered refl
                (omega (arith, room, length-map (stamp clock.append_time) (m ∷ ms))) ahead in
            subst Outcome (sym (append_batch_compressed-some w clock p m ms c compressed encoded))
              (inl r.0, r.1, omega (arith, r.2, length-map (stamp clock.append_time) (m ∷ ms)))
      ]

  -- What the calls return, one after another.
  unfoldable pub results : Codec → Partition w.Log → List Call → List (Result (List ℕ))
  results c p [] = []
  results c p (x ∷ xs) = let out = call w c p x in out.result ∷ results c out.partition xs

  pub results-IsRefused :
      (c : Codec) (p : Partition w.Log) (xs : List Call)
      → WritesInOrder w
      → All (λ x. 0 < length (batch_of x)) xs
      → p.next_offset + total xs < mod64
      → IsAhead p
      → All IsRefused (results c p xs)
  unfolding results total
  results-IsRefused c p [] ordered v room ahead = tt
  results-IsRefused c p (x ∷ xs) ordered v room ahead =
      let (refused, still, bound) = call-IsAhead c p x ordered v.0 (omega arith) ahead in
      (refused, results-IsRefused c (call w c p x).partition xs ordered v.1 (omega arith) still)

  call_failed-IsAhead :
      (c : Codec) (p : Partition w.Log) (x : Call) (last : ℕ)
      → p.next_offset ≡ last + 1
      → 0 < length (batch_of x)
      → p.next_offset + length (batch_of x) < mod64
      → (call w c p x).result ≡ err wal_write
      → w.last_index (call w c p x).partition.log ≡ some last
      → IsAhead (call w c p x).partition
        × ((call w c p x).partition.next_offset ≡ p.next_offset + length (batch_of x))
  unfolding batch_of call append_batch
  call_failed-IsAhead c p (plain pool clock []) last step some_messages room failed stays =
      absurd (omega arith)
  call_failed-IsAhead c p (plain pool clock (m ∷ ms)) last step some_messages room failed stays =
      let stamped = map (stamp clock.append_time) (m ∷ ms) in
      let amount = length-map (stamp clock.append_time) (m ∷ ms) in
      let r =
        commit_batch_failed-IsAhead clock p (plain_records pool 0 p.next_offset stamped) stamped
          last step (omega (arith, amount)) (omega (arith, amount, room)) failed stays in
      (r.0, omega (arith, r.1, amount))
  call_failed-IsAhead c p (packed clock []) last step some_messages room failed stays =
      absurd (omega arith)
  call_failed-IsAhead c p (packed clock (m ∷ ms)) last step some_messages room failed stays =
      let stamped = map (stamp clock.append_time) (m ∷ ms) in
      let amount = length-map (stamp clock.append_time) (m ∷ ms) in
      let Outcome : Appended w.Log → Type 0 = λ out.
        IsAhead out.partition × (out.partition.next_offset ≡ p.next_offset + length (m ∷ ms)) in
      elim (Option-cases (c.encode (payload_of stamped))) [
        | inl none_out ↦ absurd (
            ground (
              arith,
              failed,
              ap (λ out. out.result) (append_batch_compressed-none w clock p m ms c none_out),
            ))
        | inr (compressed, encoded) ↦
            let same = append_batch_compressed-some w clock p m ms c compressed encoded in
            let r =
              commit_batch_failed-IsAhead clock p
                (packed_records p.next_offset (length (map (stamp clock.append_time) ms))
                  compressed)
                stamped last step (omega (arith, amount)) (omega (arith, amount, room))
                (ap (λ out. out.result) (sym same) ∙ failed)
                (ap (λ (out : Appended w.Log). w.last_index out.partition.log) (sym same)
                  ∙ stays) in
            subst Outcome (sym same) (r.0, omega (arith, r.1, amount))
      ]

  -- Let the write-ahead log take only batches that go on from its last index, and refuse others
  -- without a change. If an append (plain or compressed, of at least one message) fails in the log,
  -- and the log's last index then is the one before the next offset that the partition had, every
  -- later append of at least one message fails, whatever the log could write by then, as long as the
  -- offsets counted stay below 2 ^ 64: none hands out an offset.
  pub after_failed_write-IsRefused :
      (c : Codec) (p : Partition w.Log) (x : Call) (xs : List Call) (last : ℕ)
      → WritesInOrder w
      → p.next_offset ≡ last + 1
      → (call w c p x).result ≡ err wal_write
      → w.last_index (call w c p x).partition.log ≡ some last
      → All (λ y. 0 < length (batch_of y)) (x ∷ xs)
      → p.next_offset + total (x ∷ xs) < mod64
      → All IsRefused (results c (call w c p x).partition xs)
  unfolding total
  after_failed_write-IsRefused c p x xs last ordered step failed stays v room =
      let (ahead, next) = call_failed-IsAhead c p x last step v.0 (omega arith) failed stays in
      results-IsRefused c (call w c p x).partition xs ordered v.1 (omega arith) ahead
