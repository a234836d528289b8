-- ===== src/PriorityIndex/Levels.antt =====
-- The abstract view of `PriorityIndex`: ten queues of entries.
use nya_queue.Prelude.{
  ℕ, zero, suc, ◌+◌, ◌<◌, ◌≤◌, ◌≡◌, List, [], ◌∷◌, map, arith, length, get_or, set, get_or-map,
  map-set,
}
use nya_queue.EntryRing.{linearize, copy_out}
use nya_queue.EntryRing.Queue.{Queue}
use nya_queue.PriorityIndex.{Level, PriorityIndex, level_at, zero_level}

abbrev pub queue_of : Level → Queue
queue_of lv = linearize lv.ring

abbrev pub queues_of : List Level → List Queue
queues_of levels = map queue_of levels

abbrev pub queues : PriorityIndex → List Queue
queues pi = queues_of pi.levels

abbrev pub queue_at : List Queue → ℕ → Queue
queue_at qs p = get_or qs p []

pub queue_at-queues_of :
    (levels : List Level) (p : ℕ) → queue_at (queues_of levels) p ≡ queue_of (level_at levels p)
unfolding linearize copy_out
queue_at-queues_of levels p = get_or-map queue_of levels p zero_level

pub queues_of-set :
    (levels : List Level) (p : ℕ) (lv : Level)
    → queues_of (set levels p lv) ≡ set (queues_of levels) p (queue_of lv)
queues_of-set levels p lv = map-set queue_of levels p lv

-- The entries of all levels.
unfoldable pub total_size : List Level → ℕ
total_size [] = 0
total_size (lv ∷ levels) = lv.ring.size + total_size levels

pub total_size-set :
    (levels : List Level) (p : ℕ) (lv : Level)
    → p < length levels
    → total_size (set levels p lv) + (level_at levels p).ring.size
      ≡ total_size levels + lv.ring.size
unfolding total_size
total_size-set [] p lv h = absurd (omega arith)
total_size-set (x ∷ levels) zero lv h = omega arith
total_size-set (x ∷ levels) (suc p) lv h = omega (arith, total_size-set levels p lv (omega arith))

pub total_size-ge :
    (levels : List Level) (p : ℕ)
    → p < length levels
    → (level_at levels p).ring.size ≤ total_size levels
unfolding total_size
total_size-ge [] p h = absurd (omega arith)
total_size-ge (x ∷ levels) zero h = omega arith
total_size-ge (x ∷ levels) (suc p) h = omega (arith, total_size-ge levels p (omega arith))
