-- ===== src/PriorityIndex/Delivery.antt =====
-- The order in which `PopHighest` hands out what an index holds.
use nya_queue.Prelude.{
  ℕ, zero, suc, ◌+◌, ◌≤◌, ◌<◌, ◌≡◌, refl, sym, ap, ap₂, ◌∙◌, Bool-cases, inl, inr, ltb, Option,
  none, some, List, [], ◌∷◌, ◌++◌, arith, set, length, get_or-set_self, get_or-set_ne, length-map,
}
use nya_queue.EntryRing.{PendingEntry}
use nya_queue.EntryRing.Queue.{Queue}
use nya_queue.PriorityIndex.{max_priority, PriorityIndex, pop_highest}
use nya_queue.PriorityIndex.Levels.{queues, queue_of, queue_at}
use nya_queue.PriorityIndex.Invariant.{IsValid}
use nya_queue.PriorityIndex.Pop.{HighestFrom, pop_highest-HighestFrom}

-- The entries of the queues below `n`, from the highest queue down, each from its oldest on.
unfoldable pub by_priority : ℕ → List Queue → List PendingEntry
by_priority zero qs = []
by_priority (suc n) qs = queue_at qs n ++ by_priority n qs

by_priority-set :
    (n p : ℕ) (qs : List Queue) (q : Queue) → n ≤ p → by_priority n (set qs p q) ≡ by_priority n qs
unfolding by_priority
by_priority-set zero p qs q le = refl
by_priority-set (suc n) p qs q le =
    ap₂ ◌++◌ (get_or-set_ne qs p n q [] (omega arith)) (by_priority-set n p qs q (omega arith))

-- Empty queues at the top say nothing.
by_priority_top :
    (n p : ℕ) (qs : List Queue)
    → p < n
    → ((j : ℕ) → p + 1 ≤ j → j < n → queue_at qs j ≡ [])
    → by_priority n qs ≡ queue_at qs p ++ by_priority p qs
unfolding by_priority
by_priority_top zero p qs lt empty = absurd (omega arith)
by_priority_top (suc n) p qs lt empty = elim (Bool-cases (ltb p n)) [
  | inl below ↦
      ap (λ q. q ++ by_priority n qs) (empty n (ground (arith, below)) (omega arith))
      ∙ by_priority_top n p qs (ground (arith, below)) (λ j lo hi. empty j lo (omega arith))
  | inr at ↦ ap (λ k. by_priority (suc k) qs) {x = n} {y = p} (ground (arith, at, lt))
]

by_priority_empty :
    (n : ℕ) (qs : List Queue) → ((j : ℕ) → j < n → queue_at qs j ≡ []) → by_priority n qs ≡ []
unfolding by_priority
by_priority_empty zero qs empty = refl
by_priority_empty (suc n) qs empty =
    ap₂ ◌++◌ (empty n (omega arith)) (by_priority_empty n qs (λ j lt. empty j (omega arith)))

-- What an index still has to deliver.
abbrev pub pending : PriorityIndex → List PendingEntry
pending pi = by_priority max_priority (queues pi)

-- The outcome of `PopHighest` by what is pending.
abbrev pub PopsFirst : ℕ → PriorityIndex → Option PendingEntry × PriorityIndex → Type 0
PopsFirst limit pi (none, pi') = (pi' ≡ pi) × (pending pi ≡ [])
PopsFirst limit pi (some e, pi') = IsValid limit pi' × (pending pi ≡ e ∷ pending pi')

HighestFrom-PopsFirst :
    (limit : ℕ) (pi : PriorityIndex) (out : Option PendingEntry × PriorityIndex)
    → IsValid limit pi
    → HighestFrom limit pi 0 max_priority out
    → PopsFirst limit pi out
HighestFrom-PopsFirst limit pi (none, pi') v (same, empty) =
    (same, by_priority_empty max_priority (queues pi) (λ j lt. empty j (omega arith) lt))
HighestFrom-PopsFirst limit pi (some e, pi') v (p, lo, hi, empty, takes) = (
  takes.valid,
  by_priority_top max_priority p (queues pi) hi empty
      ∙ ap (λ q. q ++ by_priority p (queues pi)) takes.front
      ∙ sym (ap (λ t. e ∷ t) after),
)
  where
    within : p < length (queues pi)
    within = omega (arith, hi, v.ten, length-map queue_of pi.levels)

    after : pending pi' ≡ takes.rest ++ by_priority p (queues pi)
    after =
        ap (by_priority max_priority) takes.left
        ∙ by_priority_top max_priority p (set (queues pi) p takes.rest) hi (λ j lo' hi'.
          get_or-set_ne (queues pi) p j takes.rest [] (omega arith) ∙ empty j lo' hi')
        ∙ ap₂ ◌++◌ (get_or-set_self (queues pi) p takes.rest [] within)
            (by_priority-set p p (queues pi) takes.rest (omega arith))

pub pop_highest-PopsFirst :
    (limit : ℕ) (pi : PriorityIndex) → IsValid limit pi → PopsFirst limit pi (pop_highest pi)
pop_highest-PopsFirst limit pi v =
    HighestFrom-PopsFirst limit pi (pop_highest pi) v (pop_highest-HighestFrom limit pi v)

-- The entries of `n` calls of `PopHighest`, up to the first that finds nothing.
unfoldable pub pop_many : ℕ → PriorityIndex → List PendingEntry
pop_many zero pi = []
pop_many (suc n) pi =
    let (out, pi') = pop_highest pi in
    let rest = pop_many n pi' in elim out [ none ↦ [] | some e ↦ e ∷ rest ]

-- On an index that satisfies the invariant, enough calls of `PopHighest` hand out all pending
-- entries, each once, those of a higher priority first and those of one priority in the order of
-- their arrival in it; the call behind the last answers false.
pub pop_many-pending :
    (n limit : ℕ) (pi : PriorityIndex)
    → IsValid limit pi
    → length (pending pi) < n
    → pop_many n pi ≡ pending pi
unfolding pop_many
pop_many-pending zero limit pi v lt = absurd (omega arith)
pop_many-pending (suc n) limit pi v lt =
    step (pop_highest pi) (λ pi' v' lt'. pop_many-pending n limit pi' v' lt') refl
      (pop_highest-PopsFirst limit pi v)
  where
    step :
        (out : Option PendingEntry × PriorityIndex)
        → ((pi' : PriorityIndex)
            → IsValid limit pi'
            → length (pending pi') < n
            → pop_many n pi' ≡ pending pi')
        → pop_highest pi ≡ out
        → PopsFirst limit pi out
        → pop_many (suc n) pi ≡ pending pi
    step (none, pi') again e (same, empty) = ground (arith, e, empty)
    step (some x, pi') again e (valid, first) =
        ground (arith, e, first, again pi' valid (omega (arith, lt, ap length first)))
