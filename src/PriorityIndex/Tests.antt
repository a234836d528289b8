-- ===== src/PriorityIndex/Tests.antt =====
-- Runs of `PriorityIndex`, and its theorems at a concrete index.
use nya_queue.Prelude.{ℕ, ◌≡◌, refl, false, Option, some, [], ◌∷◌, arith}
use nya_queue.Prelude.Int.{pos}
use nya_queue.EntryRing.{
  PendingEntry, zero_entry, copy_out, push_slot, push_back, pop_front, linearize, clear_from,
  truncated, make_room, reset_from,
}
use nya_queue.EntryRing.Queue
use nya_queue.PriorityIndex.{
  max_priority, Level, PriorityIndex, add, pop_level, pop_down, pop_highest, pop_with_threshold,
  is_stale, promote_stale, promote_down, promote_level, split_stale, promote_into, push_all,
  clamp_priority,
}
use nya_queue.PriorityIndex.Levels.{queues, queue_at, total_size}
use nya_queue.PriorityIndex.Invariant.{IsValid}
use nya_queue.PriorityIndex.Add.{add_refines}
use nya_queue.PriorityIndex.Pop.{HighestFrom, pop_highest-HighestFrom}
use nya_queue.PriorityIndex.Threshold.{ThresholdOutcome, pop_with_threshold-Outcome}
use nya_queue.PriorityIndex.OneStep.{after_rounds, promote_stale-after_rounds}

abbrev entry : ℕ → PendingEntry
entry n = record { wal_offset = n; arrived_at = pos n }

abbrev vacant : Level
vacant = record {
  ring = record { buf = zero_entry ∷ zero_entry ∷ []; head = 0; size = 0; cap = 2 };
  count = 0;
}

-- Level 3 is full, level 7 holds one entry.
abbrev sample : PriorityIndex
sample = record {
  levels =
      vacant
      ∷ vacant
      ∷ vacant
      ∷ record {
        ring = record { buf = entry 6 ∷ entry 2 ∷ []; head = 1; size = 2; cap = 2 };
        count = 2;
      }
      ∷ vacant
      ∷ vacant
      ∷ vacant
      ∷ record {
        ring = record { buf = entry 9 ∷ zero_entry ∷ []; head = 0; size = 1; cap = 2 };
        count = 1;
      }
      ∷ vacant
      ∷ vacant
      ∷ [];
  total = 3;
  max_per_level = pos 2;
}

sample-IsValid : IsValid 2 sample
unfolding total_size
sample-IsValid = omega arith

pops_the_highest : (pop_highest sample).0 ≡ some (entry 9)
unfolding pop_highest pop_down pop_level pop_front
pops_the_highest = refl

add_evicts : (add sample (pos 3) 11 (pos 11)).0 ≡ false
unfolding add clamp_priority push_back
add_evicts = refl

promotes : queue_at (queues (promote_stale (pos 10) (pos 5) sample)) 4 ≡ entry 2 ∷ []
unfolding promote_stale promote_down promote_level split_stale is_stale promote_into push_all
    push_back push_slot reset_from truncated make_room clear_from linearize copy_out
promotes = refl

pop_highest-HighestFrom_example : HighestFrom 2 sample 0 max_priority (pop_highest sample)
pop_highest-HighestFrom_example = pop_highest-HighestFrom 2 sample sample-IsValid

pop_with_threshold-Outcome_example :
    (out : Option PendingEntry × PriorityIndex) × (pop_with_threshold (pos 8) sample ≡ some out)
    × ThresholdOutcome 2 sample 8 out
pop_with_threshold-Outcome_example = pop_with_threshold-Outcome 2 8 sample sample-IsValid

promote_stale-after_rounds_example :
    queue_at (queues (promote_stale (pos 10) (pos 5) sample)) 4
    ≡ after_rounds 2 (is_stale (pos 10) (pos 5)) 9 (queues sample) 4
promote_stale-after_rounds_example =
    promote_stale-after_rounds 2 (pos 10) (pos 5) sample 4 sample-IsValid

add_refines_example :
    let (fit, pi) = add sample (pos 3) 11 (pos 11) in
    (queues pi
      ≡ ([] ∷ [] ∷ [] ∷ (entry 6 ∷ entry 11 ∷ []) ∷ [] ∷ [] ∷ [] ∷ (entry 9 ∷ []) ∷ [] ∷ [] ∷ []))
    × (fit ≡ false)
unfolding clamp_priority Queue.push Queue.displace linearize copy_out
add_refines_example = add_refines 2 sample (pos 3) 11 (pos 11) sample-IsValid
