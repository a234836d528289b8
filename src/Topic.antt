-- ===== src/Topic.antt =====
-- pkg/broker/topic.go: a topic is its partitions. What opens and closes a log is a parameter.
use nya_queue.Prelude.{
  ℕ, zero, suc, ◌+◌, ◌&&◌, Bool, true, false, Option, none, List, [], ◌∷◌, ltb, if◌then◌else◌,
  length, get_elem?,
}
use nya_queue.Prelude.Int.{ℤ, pos, negsuc}
use nya_queue.Wal.{Wal}
use nya_queue.Partition
use nya_queue.Partition.{Partition, ScheduleMode}
use nya_queue.Partition.Methods.{new_partition}
use nya_queue.Config.{TopicConfig}

module _ (w : Wal) (Float : Type 0) where
  open w use {Log}

  pub record Topic : Type 0 where
    pub name : List ℕ
    pub partitions : List (Partition Log)
    pub config : TopicConfig Float
    pub is_closed : Bool

  -- `n` rounds of the loop of `NewTopic` from partition `i` on. `opened i` is the outcome of
  -- `wal.Open` for the log of partition `i`.
  unfoldable pub open_partitions :
      (ℕ → Option Log) → List ℕ → ScheduleMode → ℕ → ℕ → Partition.Result (List (Partition Log))
  open_partitions opened name mode i zero = Partition.ok []
  open_partitions opened name mode i (suc n) =
      let rest = open_partitions opened name mode (i + 1) n in
      elim (new_partition w i name mode (opened i)) [
        | Partition.err e ↦ Partition.err e
        | Partition.ok p ↦ elim rest [
          | Partition.err e ↦ Partition.err e
          | Partition.ok ps ↦ Partition.ok (p ∷ ps)
        ]
      ]

  -- `cfg.NumPartitions`, which is 4 if it was not positive.
  abbrev pub partition_count : ℤ → ℕ
  partition_count (pos (suc n)) = suc n
  partition_count _ = 4

  -- After an error the source closes the partitions that it has opened.
  unfoldable pub new_topic : (ℕ → Option Log) → List ℕ → TopicConfig Float → Partition.Result Topic
  new_topic opened name cfg =
      let n = partition_count cfg.num_partitions in
      elim (open_partitions opened name cfg.schedule_mode 0 n) [
        | Partition.err e ↦ Partition.err e
        | Partition.ok ps ↦ Partition.ok (record {
          name = name;
          partitions = ps;
          config = record cfg { num_partitions = pos n };
          is_closed = false;
        })
      ]

  unfoldable pub num_partitions : Topic → ℕ
  num_partitions t = length t.partitions

  -- `Partition`: `none` is the error of a number that is out of range.
  unfoldable pub get_partition : Topic → ℤ → Option (Partition Log)
  get_partition t (pos id) =
      if ltb id (length t.partitions) then get_elem? t.partitions id else none
  get_partition t (negsuc _) = none

  unfoldable pub all_closed : (Log → Bool) → List (Partition Log) → Bool
  all_closed close_log [] = true
  all_closed close_log (p ∷ ps) = close_log p.log && all_closed close_log ps

  -- `Close`: whether every log was closed without an error.
  unfoldable pub close : (Log → Bool) → Topic → Bool × Topic
  close close_log t = (all_closed close_log t.partitions, record t { is_closed = true })
