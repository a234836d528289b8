-- ===== src/PriorityIndex/OneStep.antt =====
-- What `PromoteStale` leaves in each level, in one equation: its nine rounds move no entry twice.
use nya_queue.Prelude.{
  ℕ, zero, suc, ◌+◌, ◌-◌, ◌<◌, ◌≡◌, refl, ap, ◌∙◌, Bool, List, [], arith, length, set, ltb, ◌==◌,
  if◌then◌else◌, not, length-set, length-map, get_or-set,
}
use nya_queue.Prelude.Int.{ℤ}
use nya_queue.EntryRing.{Time, PendingEntry}
use nya_queue.EntryRing.Queue.{Queue}
use nya_queue.PriorityIndex.{max_priority, PriorityIndex, is_stale, promote_stale}
use nya_queue.PriorityIndex.Levels.{queues, queue_at, queue_of}
use nya_queue.PriorityIndex.Invariant.{IsValid}
use nya_queue.PriorityIndex.Promote.{select, push_many, promoted, promoted_down}
use nya_queue.PriorityIndex.Rounds.{promote_stale_refines}

module _ (limit : ℕ) (test : PendingEntry → Bool) where
  -- What stays of level `j` when the levels below `n` give up their entries that pass the test.
  unfoldable pub staying : ℕ → List Queue → ℕ → Queue
  staying n qs j = if ltb j n then select (λ e. not (test e)) (queue_at qs j) else queue_at qs j

  -- With what joins it from the level below.
  unfoldable pub after_rounds : ℕ → List Queue → ℕ → Queue
  after_rounds n qs zero = staying n qs zero
  after_rounds n qs (suc i) =
      if ltb i n
      then push_many limit (staying n qs (suc i)) (select test (queue_at qs i))
      else queue_at qs (suc i)

  queue_at-promoted :
      (p j : ℕ) (qs : List Queue)
      → p + 1 < length qs
      → queue_at (promoted limit test p qs) j ≡ (
          if j == p
          then select (λ e. not (test e)) (queue_at qs p)
          else if j == p + 1
          then push_many limit (queue_at qs (p + 1)) (select test (queue_at qs p))
          else queue_at qs j)
  unfolding promoted
  queue_at-promoted p j qs h = ground (
    arith,
    get_or-set (set qs p (select (λ e. not (test e)) (queue_at qs p))) (p + 1) j
        (push_many limit (queue_at qs (p + 1)) (select test (queue_at qs p))) [],
    get_or-set qs p j (select (λ e. not (test e)) (queue_at qs p)) [],
    length-set qs p (select (λ e. not (test e)) (queue_at qs p)),
  )

  length-promoted : (p : ℕ) (qs : List Queue) → length (promoted limit test p qs) ≡ length qs
  unfolding promoted
  length-promoted p qs = length-set _ (p + 1) _ ∙ length-set qs p _

  promoted_down-after_rounds :
      (n j : ℕ) (qs : List Queue)
      → n < length qs
      → queue_at (promoted_down limit test n qs) j ≡ after_rounds n qs j
  unfolding promoted_down after_rounds staying
  promoted_down-after_rounds zero zero qs h = refl
  promoted_down-after_rounds zero (suc i) qs h = ground arith
  promoted_down-after_rounds (suc p) zero qs h = ground (
    arith,
    promoted_down-after_rounds p zero (promoted limit test p qs),
    queue_at-promoted p 0 qs,
    length-promoted p qs,
  )
  promoted_down-after_rounds (suc p) (suc i) qs h = ground (
    arith,
    promoted_down-after_rounds p (suc i) (promoted limit test p qs),
    queue_at-promoted p (suc i) qs,
    queue_at-promoted p i qs,
    length-promoted p qs,
  )

-- On an index that satisfies the invariant, after `PromoteStale` each level holds its own fresh
-- entries in their order, then the stale entries of the level below in theirs, as a full level
-- pushes them. The top level keeps its stale entries too.
pub promote_stale-after_rounds :
    (limit : ℕ) (now : Time) (ttl : ℤ) (pi : PriorityIndex) (j : ℕ)
    → IsValid limit pi
    → queue_at (queues (promote_stale now ttl pi)) j
      ≡ after_rounds limit (is_stale now ttl) (max_priority - 1) (queues pi) j
promote_stale-after_rounds limit now ttl pi j v =
    ap (λ qs. queue_at qs j) (promote_stale_refines limit now ttl pi v).1
    ∙ promoted_down-after_rounds limit (is_stale now ttl) (max_priority - 1) j (queues pi)
        (omega (arith, v.ten, length-map queue_of pi.levels))
