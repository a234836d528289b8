-- ===== src/Partition/Retention.antt =====
-- The methods of `Partition` that shorten its log. Byte counts are numbers: the source keeps them in
-- an int64, which the sizes of files do not exceed.
use nya_queue.Prelude.{
  ℕ, zero, suc, ◌+◌, ◌-◌, Bool, true, not, none, some, ltb, ◌==◌, if◌then◌else◌, length,
}
use nya_queue.Prelude.Int.{ℤ, pos, ltb_ℤ, ◌-ℤ◌}
use nya_queue.Prelude.Words.{signed64}
use nya_queue.EntryRing.{Time}
use nya_queue.Message
use nya_queue.Message.{unmarshal_header}
use nya_queue.Wal.{Wal}
use nya_queue.Partition.{wal_truncate, Result, ok, err, Partition}

-- `truncateAt`, `deletedSegments` or `deletedEntries`, and `deletedBytes`.
pub record Removal : Type 0 where
  pub truncate_at : ℕ
  pub deleted : ℕ
  pub deleted_bytes : ℕ

abbrev pub no_removal : Removal
no_removal = record { truncate_at = 0; deleted = 0; deleted_bytes = 0 }

-- The record at `off`, of `size` bytes, is removed too.
abbrev pub one_more : Removal → ℕ → ℕ → Removal
one_more r off size = record {
  truncate_at = off + 1;
  deleted = r.deleted + 1;
  deleted_bytes = r.deleted_bytes + size;
}

module _ (w : Wal) where
  open w use {Log, read, first_index}

  unfoldable pub truncate_front : Partition Log → ℕ → Bool × Partition Log
  truncate_front p offset =
      let (done, log) = w.truncate_front p.log offset in
      if ltb offset 1 then (true, p) else (done, record p { log = log })

  -- What both methods do with the removal that their scan has found.
  unfoldable pub remove : Partition Log → Removal → Result (ℕ × ℕ) × Partition Log
  remove p r =
      let (done, log) = w.truncate_front p.log r.truncate_at in
      if ltb 0 r.truncate_at
      then if done
        then (ok (r.deleted, r.deleted_bytes), record p { log = log })
        else (err wal_truncate, record p { log = log })
      else (ok (r.deleted, r.deleted_bytes), p)

  -- `n` rounds of the loop of `TruncateBefore` from `off` on.
  unfoldable pub expired_from : Log → Time → Removal → ℕ → ℕ → Removal
  expired_from log cutoff r off zero = r
  expired_from log cutoff r off (suc n) = elim (read log off) [
    | none ↦ r
    | some bytes ↦ elim (unmarshal_header bytes) [
      | Message.err e ↦ r
      | Message.ok h ↦
          let rest = expired_from log cutoff (one_more r off (length bytes)) (off + 1) n in
          if ltb_ℤ (signed64 h.timestamp) cutoff then rest else r
    ]
  ]

  unfoldable pub truncate_before : Partition Log → Time → Result (ℕ × ℕ) × Partition Log
  unfolding remove
  truncate_before p cutoff = elim (first_index p.log) [
    | none ↦ (ok (0, 0), p)
    | some first ↦
        if first == 0
        then (ok (0, 0), p)
        else remove p (expired_from p.log cutoff no_removal first (p.next_offset - first))
  ]

  -- The loop that sums the sizes of the records.
  unfoldable pub size_from : Log → ℕ → ℕ → ℕ → ℕ
  size_from log total off zero = total
  size_from log total off (suc n) = elim (read log off) [
    | none ↦ total
    | some bytes ↦ size_from log (total + length bytes) (off + 1) n
  ]

  -- The loop that removes the oldest records while what is left is larger than `max_bytes`.
  unfoldable pub oldest_from : Log → ℤ → ℤ → Removal → ℕ → ℕ → Removal
  oldest_from log max_bytes total r off zero = r
  oldest_from log max_bytes total r off (suc n) = elim (read log off) [
    | none ↦ r
    | some bytes ↦
        let rest =
          oldest_from log max_bytes (total -ℤ pos (length bytes)) (one_more r off (length bytes))
            (off + 1) n in
        if ltb_ℤ max_bytes total then rest else r
  ]

  unfoldable pub truncate_oldest_until_size : Partition Log → ℤ → Result (ℕ × ℕ) × Partition Log
  unfolding remove
  truncate_oldest_until_size p max_bytes = elim (first_index p.log) [
    | none ↦ (ok (0, 0), p)
    | some first ↦
        let n = p.next_offset - first in
        let total = pos (size_from p.log 0 first n) in
        if first == 0
        then (ok (0, 0), p)
        else if not (ltb_ℤ max_bytes total)
        then (ok (0, 0), p)
        else remove p (oldest_from p.log max_bytes total no_removal first n)
  ]
