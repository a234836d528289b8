-- ===== src/PriorityIndex/Add.antt =====
-- `NewPriorityIndex`, `Add`, `Len` and `LevelDistribution` on the queues of the levels.
use nya_queue.Prelude.{
  ℕ, zero, suc, ◌+◌, ◌^◌, ◌<◌, ◌≡◌, refl, sym, ap₂, ◌∙◌, true, false, none, some, List, [], ◌∷◌,
  arith, length, set, map, replicate, All, All-replicate, length-replicate,
}
use nya_queue.Prelude.Int.{ℤ, pos, negsuc, pos_part}
use nya_queue.Prelude.Words.{add32, extend32}
use nya_queue.EntryRing.{Time, PendingEntry, zero_entry, EntryRing, push_back, linearize}
use nya_queue.EntryRing.Queue
use nya_queue.EntryRing.Queue.{Queue}
use nya_queue.EntryRing.Refine.{push_back_refines, length-linearize}
use nya_queue.PriorityIndex.{
  max_priority, Level, PriorityIndex, level_at, apply_options, fresh_level, new_priority_index,
  clamp_priority, add, len, level_distribution,
}
use nya_queue.PriorityIndex.Levels.{
  queues, queue_at, queue_of, queue_at-queues_of, queues_of-set, total_size,
}
use nya_queue.PriorityIndex.Invariant.{IsValid, LevelIsValid, level-IsValid, clamp_priority-lt}

fresh_level-IsValid :
    (most : ℤ)
    → LevelIsValid (pos_part most) (fresh_level most) × ((fresh_level most).ring.size ≡ 0)
unfolding fresh_level
fresh_level-IsValid (pos zero) = omega arith
fresh_level-IsValid (pos (suc n)) = omega (arith, length-replicate n zero_entry)
fresh_level-IsValid (negsuc n) = omega arith

total_size-replicate : (n : ℕ) (lv : Level) → lv.ring.size ≡ 0 → total_size (replicate n lv) ≡ 0
unfolding total_size
total_size-replicate zero lv h = refl
total_size-replicate (suc n) lv h = omega (arith, total_size-replicate n lv h)

-- A new index is valid, with the capacity of the last option given (none, or one that is not
-- positive, is no limit), and holds nothing.
pub new_priority_index-IsValid :
    (opts : List ℤ)
    → IsValid (pos_part (apply_options opts)) (new_priority_index opts)
      × (total_size (new_priority_index opts).levels ≡ 0)
unfolding new_priority_index
new_priority_index-IsValid opts =
    let most = apply_options opts in
    let fresh = fresh_level-IsValid most in
    let nothing = total_size-replicate max_priority (fresh_level most) fresh.1 in
    (
      record {
        ten = refl;
        each = All-replicate (LevelIsValid (pos_part most)) max_priority (fresh_level most) fresh.0;
        totalled = omega (arith, nothing);
      },
      nothing,
    )

-- On an index that satisfies the invariant, `Add` pushes the entry on the queue of its priority,
-- put into the range of levels, evicting the oldest there if the level is full, and says whether
-- it did not evict. No other level changes.
pub add_refines :
    (limit : ℕ) (pi : PriorityIndex) (priority : ℤ) (offset : ℕ) (arrived : Time)
    → IsValid limit pi
    → let p = clamp_priority priority in
      let (evicted, q) =
        Queue.push limit
          (queue_at (queues pi) p)
          (record { wal_offset = offset; arrived_at = arrived }) in
      let (fit, pi') = add pi priority offset arrived in
      (queues pi' ≡ set (queues pi) p q) × (fit ≡ elim evicted [ none ↦ true | some _ ↦ false ])
unfolding add
add_refines limit pi priority offset arrived v = ground (
  arith,
  pushed,
  queues_of-set pi.levels p (record { ring = ring'; count = lv.count }),
  queues_of-set pi.levels p (record { ring = ring'; count = add32 lv.count 1 }),
)
  where
    p : ℕ
    p = clamp_priority priority

    lv : Level
    lv = level_at pi.levels p

    e : PendingEntry
    e = record { wal_offset = offset; arrived_at = arrived }

    ring' : EntryRing
    ring' = (push_back lv.ring e).1

    lv_valid : LevelIsValid limit lv
    lv_valid = level-IsValid limit p pi v (clamp_priority-lt priority)

    pushed :
        ((push_back lv.ring e).0, linearize ring') ≡ Queue.push limit (queue_at (queues pi) p) e
    pushed =
        push_back_refines lv.ring e lv_valid.ring_valid
        ∙ ap₂ (λ c q. Queue.push c q e) lv_valid.capacity (sym (queue_at-queues_of pi.levels p))

unfoldable pub total_length : List Queue → ℕ
total_length [] = 0
total_length (q ∷ qs) = length q + total_length qs

total_size-length : (levels : List Level) → total_size levels ≡ total_length (map queue_of levels)
unfolding total_size total_length
total_size-length [] = refl
total_size-length (lv ∷ levels) = omega (arith, total_size-length levels, length-linearize lv.ring)

counts-lengths :
    (limit : ℕ) (levels : List Level)
    → All (LevelIsValid limit) levels
    → All (λ lv. lv.ring.size < 2 ^ 31) levels
    → map (λ lv. extend32 lv.count) levels ≡ map length (map queue_of levels)
counts-lengths limit [] v h = refl
counts-lengths limit (lv ∷ levels) (v, vs) (h, hs) =
    ap₂ ◌∷◌ (ground (arith, length-linearize lv.ring)) (counts-lengths limit levels vs hs)

-- On an index that satisfies the invariant, `Len` is the number of entries in the queues and
-- `LevelDistribution` the length of each, as long as there are fewer than 2^63 in all and than
-- 2^31 in each.
pub len_and_distribution :
    (limit : ℕ) (pi : PriorityIndex)
    → IsValid limit pi
    → total_length (queues pi) < 2 ^ 63
    → All (λ lv. lv.ring.size < 2 ^ 31) pi.levels
    → (len pi ≡ total_length (queues pi)) × (level_distribution pi ≡ map length (queues pi))
unfolding level_distribution
len_and_distribution limit pi v total each = (
  omega (arith, v.totalled, total_size-length pi.levels),
  counts-lengths limit pi.levels v.each each,
)
