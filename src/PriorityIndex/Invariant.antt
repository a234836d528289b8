-- ===== src/PriorityIndex/Invariant.antt =====
-- The invariant of `PriorityIndex`, and that its operations keep it: each ring is valid and of the
-- index's capacity, each `count` is its ring's size, and `total` is the number of all entries.
use nya_queue.Prelude.{
  ℕ, ◌+◌, ◌%◌, ◌<◌, ◌≡◌, arith, length, set, All, All-get_or, All-set, length-set, Option-cases,
  inl, inr,
}
use nya_queue.Prelude.Int.{ℤ, pos, negsuc}
use nya_queue.Prelude.Words.{mod32, mod64}
use nya_queue.EntryRing.{Time, PendingEntry, EntryRing, push_back, pop_front}
use nya_queue.EntryRing.Bounds
use nya_queue.EntryRing.Bounds.{
  push_back-IsValid, pop_front-IsValid, reset_from-IsValid, cap-push_back, cap-pop_front,
  cap-reset_from, size-push_back, size-pop_front, pop_front-pos,
}
use nya_queue.PriorityIndex.{
  max_priority, Level, PriorityIndex, level_at, zero_level, clamp_priority, add, after_pop,
}
use nya_queue.PriorityIndex.Levels.{total_size, total_size-set, total_size-ge}

pub record LevelIsValid (limit : ℕ) (lv : Level) : Type 0 where
  pub ring_valid : Bounds.IsValid lv.ring
  pub capacity : lv.ring.cap ≡ limit
  pub counted : lv.count ≡ lv.ring.size % mod32

pub record IsValid (limit : ℕ) (pi : PriorityIndex) : Type 0 where
  pub ten : length pi.levels ≡ max_priority
  pub each : All (LevelIsValid limit) pi.levels
  pub totalled : pi.total ≡ total_size pi.levels % mod64

pub level-IsValid :
    (limit p : ℕ) (pi : PriorityIndex)
    → IsValid limit pi
    → p < max_priority
    → LevelIsValid limit (level_at pi.levels p)
level-IsValid limit p pi v h =
    All-get_or (LevelIsValid limit) pi.levels p zero_level v.each (omega arith)

-- To replace one level, and the total with it.
pub replace-IsValid :
    (limit p : ℕ) (pi : PriorityIndex) (lv : Level) (t : ℕ)
    → IsValid limit pi
    → p < max_priority
    → LevelIsValid limit lv
    → (t + (level_at pi.levels p).ring.size) % mod64 ≡ (pi.total + lv.ring.size) % mod64
    → t < mod64
    → IsValid limit (record pi { levels = set pi.levels p lv; total = t })
replace-IsValid limit p pi lv t v h hl ht small = record {
  ten = omega (arith, length-set pi.levels p lv);
  each = All-set (LevelIsValid limit) pi.levels p lv v.each hl;
  totalled = omega (arith, total_size-set pi.levels p lv (omega arith), v.totalled);
}

pub clamp_priority-lt : (z : ℤ) → clamp_priority z < max_priority
unfolding clamp_priority
clamp_priority-lt (pos p) = ground arith
clamp_priority-lt (negsuc n) = omega arith

-- `Add` keeps the invariant of the index, for any priority, offset and time: ten levels, each a
-- ring within its bounds with its size as its counter, and `total` the sum of the sizes.
pub add-IsValid :
    (limit : ℕ) (pi : PriorityIndex) (priority : ℤ) (offset : ℕ) (arrived : Time)
    → IsValid limit pi
    → IsValid limit (add pi priority offset arrived).1
unfolding add
add-IsValid limit pi priority offset arrived v = elim (Option-cases (push_back ring e).0) [
  | inl added ↦
      rw (added, add)
        (replace-IsValid limit p pi _ _ v (clamp_priority-lt priority)
          (ground
            (arith, lv, push_back-IsValid ring e, cap-push_back ring e, size-push_back ring e))
          (ground (arith, lv, size-push_back ring e)) (omega arith))
  | inr (x, evicted) ↦
      rw (evicted, add)
        (replace-IsValid limit p pi _ pi.total v (clamp_priority-lt priority)
          (ground
            (arith, lv, push_back-IsValid ring e, cap-push_back ring e, size-push_back ring e))
          (ground (arith, lv, size-push_back ring e)) (omega (arith, v.totalled)))
]
  where
    p : ℕ
    p = clamp_priority priority

    ring : EntryRing
    ring = (level_at pi.levels p).ring

    e : PendingEntry
    e = record { wal_offset = offset; arrived_at = arrived }

    lv : LevelIsValid limit (level_at pi.levels p)
    lv = level-IsValid limit p pi v (clamp_priority-lt priority)

pub after_pop-IsValid :
    (limit p : ℕ) (pi : PriorityIndex)
    → IsValid limit pi
    → p < max_priority
    → 0 < (level_at pi.levels p).ring.size
    → IsValid limit (after_pop pi p (pop_front (level_at pi.levels p).ring).1)
unfolding after_pop
after_pop-IsValid limit p pi v hp h =
    replace-IsValid limit p pi _ _ v hp
      (ground (arith, lv, pop_front-IsValid ring, cap-pop_front ring, size-pop_front ring))
      (ground (arith, lv, size-pop_front ring, v.totalled, total_size-ge pi.levels p)) (omega arith)
  where
    ring : EntryRing
    ring = (level_at pi.levels p).ring

    lv : LevelIsValid limit (level_at pi.levels p)
    lv = level-IsValid limit p pi v hp
