-- ===== src/PriorityIndex/Pop.antt =====
-- `PopHighest`, and the first loop of `PopWithThreshold`, on the queues of the levels.
use nya_queue.Prelude.{
  ℕ, zero, suc, ◌+◌, ◌≤◌, ◌<◌, ◌≡◌, refl, ap, subst, ◌∙◌, Option, none, some, [], ◌∷◌, arith, set,
  inl, inr, ◌⊎◌, ltb, Bool-cases, ltb→lt, ltb_false→le,
}
use mathlib.Core.Path.{subst⁻¹}
use nya_queue.EntryRing.{PendingEntry, pop_front, linearize}
use nya_queue.EntryRing.Queue.{Queue}
use nya_queue.EntryRing.Refine.{pop_front_cases}
use nya_queue.EntryRing.Bounds.{pop_front-pos}
use nya_queue.PriorityIndex.{
  max_priority, PriorityIndex, level_at, after_pop, pop_level, pop_down, pop_highest,
}
use nya_queue.PriorityIndex.Levels.{queues, queue_at, queue_at-queues_of, queues_of-set}
use nya_queue.PriorityIndex.Invariant.{IsValid, level-IsValid, after_pop-IsValid}

-- Level `p` gives up its oldest entry, and no other level changes.
pub record TakesFront (limit : ℕ) (pi pi' : PriorityIndex) (p : ℕ) (e : PendingEntry) : Type 0 where
  pub rest : Queue
  pub front : queue_at (queues pi) p ≡ e ∷ rest
  pub left : queues pi' ≡ set (queues pi) p rest
  pub valid : IsValid limit pi'

pub after_pop-TakesFront :
    (limit p : ℕ) (pi : PriorityIndex) (e : PendingEntry) (rest : Queue)
    → IsValid limit pi
    → p < max_priority
    → (pop_front (level_at pi.levels p).ring).0 ≡ some e
    → linearize (level_at pi.levels p).ring ≡ e ∷ rest
    → linearize (pop_front (level_at pi.levels p).ring).1 ≡ rest
    → TakesFront limit pi (after_pop pi p (pop_front (level_at pi.levels p).ring).1) p e
unfolding after_pop
after_pop-TakesFront limit p pi e rest v hp some_e front left = record {
  rest = rest;
  front = queue_at-queues_of pi.levels p ∙ front;
  left = queues_of-set pi.levels p _ ∙ ap (set (queues pi) p) left;
  valid = after_pop-IsValid limit p pi v hp (pop_front-pos _ some_e);
}

-- What a round of the loops does, by the queue of its level.
abbrev LevelCase : ℕ → ℕ → PriorityIndex → Type 0
LevelCase limit p pi =
    (pop_level p pi ≡ (none, pi)) × (queue_at (queues pi) p ≡ [])
    ⊎ ((e : PendingEntry) × (pi' : PriorityIndex) × (pop_level p pi ≡ (some e, pi'))
        × TakesFront limit pi pi' p e)

pop_level_cases :
    (limit p : ℕ) (pi : PriorityIndex) → IsValid limit pi → p < max_priority → LevelCase limit p pi
unfolding pop_level
pop_level_cases limit p pi v hp =
    elim (pop_front_cases (level_at pi.levels p).ring (level-IsValid limit p pi v hp).ring_valid) [
      | inl (failed, empty) ↦ inl (rw (failed, pop_level), queue_at-queues_of pi.levels p ∙ empty)
      | inr (e, rest, found, front, left) ↦ inr (
        e,
        after_pop pi p (pop_front (level_at pi.levels p).ring).1,
        rw (found, pop_level),
        after_pop-TakesFront limit p pi e rest v hp found front left,
      )
    ]

-- Every level from `lowest` up to `next`, without it, is empty.
abbrev pub EmptyBetween : PriorityIndex → ℕ → ℕ → Type 0
EmptyBetween pi lowest next = (j : ℕ) → lowest ≤ j → j < next → queue_at (queues pi) j ≡ []

-- The outcome of a loop that goes down from level `next - 1` to `lowest`.
abbrev pub HighestFrom : ℕ → PriorityIndex → ℕ → ℕ → Option PendingEntry × PriorityIndex → Type 0
HighestFrom limit pi lowest next (none, pi') = (pi' ≡ pi) × EmptyBetween pi lowest next
HighestFrom limit pi lowest next (some e, pi') =
    (p : ℕ) × (lowest ≤ p) × (p < next) × EmptyBetween pi (p + 1) next × TakesFront limit pi pi' p e

EmptyBetween-suc :
    (pi : PriorityIndex) (lowest p : ℕ)
    → queue_at (queues pi) p ≡ []
    → EmptyBetween pi lowest p
    → EmptyBetween pi lowest (suc p)
EmptyBetween-suc pi lowest p empty below j lo hi = elim (Bool-cases (ltb j p)) [
  | inl lt ↦ below j lo (ltb→lt j p lt)
  | inr ge ↦ subst (λ k. queue_at (queues pi) k ≡ []) (omega (arith, ltb_false→le j p ge)) empty
]

HighestFrom-suc :
    (limit lowest p : ℕ) (pi : PriorityIndex) (out : Option PendingEntry × PriorityIndex)
    → queue_at (queues pi) p ≡ []
    → HighestFrom limit pi lowest p out
    → HighestFrom limit pi lowest (suc p) out
HighestFrom-suc limit lowest p pi (none, pi') empty (same, below) =
    (same, EmptyBetween-suc pi lowest p empty below)
HighestFrom-suc limit lowest p pi (some e, pi') empty (q, lo, hi, below, takes) =
    (q, lo, omega arith, EmptyBetween-suc pi (q + 1) p empty below, takes)

pop_down_stop :
    (p lowest : ℕ) (pi : PriorityIndex) → p < lowest → pop_down (suc p) lowest pi ≡ (none, pi)
unfolding pop_down
pop_down_stop p lowest pi h = ground arith

pop_down_next :
    (p lowest : ℕ) (pi : PriorityIndex)
    → lowest ≤ p
    → pop_level p pi ≡ (none, pi)
    → pop_down (suc p) lowest pi ≡ pop_down p lowest pi
unfolding pop_down
pop_down_next p lowest pi h e = ground arith

pop_down_found :
    (p lowest : ℕ) (pi pi' : PriorityIndex) (e : PendingEntry)
    → lowest ≤ p
    → pop_level p pi ≡ (some e, pi')
    → pop_down (suc p) lowest pi ≡ (some e, pi')
unfolding pop_down
pop_down_found p lowest pi pi' e h f = ground arith

pub pop_down-HighestFrom :
    (limit next lowest : ℕ) (pi : PriorityIndex)
    → IsValid limit pi
    → next ≤ max_priority
    → HighestFrom limit pi lowest next (pop_down next lowest pi)
unfolding pop_down
pop_down-HighestFrom limit zero lowest pi v h = (refl, λ j lo hi. absurd (omega arith))
pop_down-HighestFrom limit (suc p) lowest pi v h = elim (Bool-cases (ltb p lowest)) [
  | inl below ↦
      subst⁻¹ (HighestFrom limit pi lowest (suc p))
        (pop_down_stop p lowest pi (ltb→lt p lowest below))
        (refl, λ j lo hi. absurd (omega (arith, ltb→lt p lowest below)))
  | inr within ↦ elim (pop_level_cases limit p pi v h) [
    | inl (failed, empty) ↦
        subst⁻¹ (HighestFrom limit pi lowest (suc p))
          (pop_down_next p lowest pi (ltb_false→le p lowest within) failed)
          (HighestFrom-suc limit lowest p pi _ empty
            (pop_down-HighestFrom limit p lowest pi v (omega arith)))
    | inr (e, pi', found, takes) ↦
        subst⁻¹ (HighestFrom limit pi lowest (suc p))
          (pop_down_found p lowest pi pi' e (ltb_false→le p lowest within) found)
          (p, ltb_false→le p lowest within, omega arith, λ j lo hi. absurd (omega arith), takes)
  ]
]

-- On an index that satisfies the invariant, `PopHighest` takes the oldest entry of the highest
-- level that has one, leaves everything else as it was, and answers false, with no change,
-- exactly where all levels are empty.
pub pop_highest-HighestFrom :
    (limit : ℕ) (pi : PriorityIndex)
    → IsValid limit pi
    → HighestFrom limit pi 0 max_priority (pop_highest pi)
unfolding pop_highest
pop_highest-HighestFrom limit pi v = pop_down-HighestFrom limit max_priority 0 pi v (omega arith)
