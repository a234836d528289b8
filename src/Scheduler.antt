-- ===== src/Scheduler.antt =====
-- pkg/scheduler/fifo.go and priority.go: the schedulers that need no model. Their `Enqueue` does
-- nothing. A `Next` that pops from the index returns the partition with the entry taken out.
pub mod Fifo
pub mod Strict
mod Tests
use nya_queue.Prelude.{ℕ, ltb, Option, none, some, if◌then◌else◌}
use nya_queue.Prelude.Words.{add64}
use nya_queue.Message.{Message}
use nya_queue.EntryRing.{PendingEntry}
use nya_queue.PriorityIndex.{PriorityIndex, pop_highest}
use nya_queue.Wal.{Wal}
use nya_queue.Partition
use nya_queue.Partition.{Partition}
use nya_queue.Partition.Methods.{high_water_mark, read_message}

pub data Error : Type 0 where
  no_messages : Error
  no_priority_index : ℕ → Error
  read_failed : Partition.Error → Error

pub data Result {ℓ} (A : Type ℓ) : Type ℓ where
  ok : A → Result A
  err : Error → Result A

module _ (w : Wal) where
  open w use {Log}

  -- `Next` of `FIFO`: the message, and the offset to go on from.
  unfoldable pub next_fifo : Partition Log → ℕ → Result Message × ℕ
  next_fifo p offset =
      if ltb (high_water_mark w p) offset
      then (err no_messages, offset)
      else elim (read_message w p offset) [
        | Partition.ok m ↦ (ok m, add64 offset 1)
        | Partition.err e ↦ (err (read_failed e), offset)
      ]

  -- `Next` of `StrictPriority`: the message, and its offset.
  unfoldable pub next_strict : Partition Log → Result Message × (ℕ × Partition Log)
  next_strict p = elim p.priority_index [
    | none ↦ (err (no_priority_index p.id), (0, p))
    | some pi ↦
        let (out, pi') = pop_highest pi in
        let left : Partition Log = record p { priority_index = some pi' } in
        elim out [
          | none ↦ (err no_messages, (0, left))
          | some entry ↦ elim (read_message w left entry.wal_offset) [
            | Partition.ok m ↦ (ok m, (entry.wal_offset, left))
            | Partition.err e ↦ (err (read_failed e), (0, left))
          ]
        ]
  ]
