-- ===== src/PriorityIndex/Threshold.antt =====
-- `PopWithThreshold` on the queues of the levels: strict priority from the threshold up, and the
-- earliest arrival below it.
use mathlib.Core.Path.{subst⁻¹}
use nya_queue.Prelude.{
  ℕ, zero, suc, ◌+◌, ◌<◌, min, ◌≡◌, refl, sym, ap, subst, ◌∙◌, true, false, Option, none, some,
  List, [], ◌∷◌, arith, inl, inr, ◌⊎◌, ltb, Bool-cases, ltb→lt, ltb_false→le,
}
use nya_queue.Prelude.Int.{pos, ◌≤ℤ◌, ◌<ℤ◌, ltb_ℤ}
use nya_queue.EntryRing.{Time, PendingEntry, pop_front, peek_front, linearize}
use nya_queue.EntryRing.Queue
use nya_queue.EntryRing.Queue.{Queue}
use nya_queue.EntryRing.Refine.{pop_front_cases, peek_front_refines}
use nya_queue.PriorityIndex.{
  max_priority, Level, PriorityIndex, level_at, after_pop, pop_down, better, scan_oldest,
  pop_oldest, pop_with_threshold,
}
use nya_queue.PriorityIndex.Levels.{queues, queue_at, queue_at-queues_of}
use nya_queue.PriorityIndex.Invariant.{IsValid, level-IsValid}
use nya_queue.PriorityIndex.Pop.{
  TakesFront, after_pop-TakesFront, EmptyBetween, HighestFrom, pop_down-HighestFrom,
}

-- The first entry of level `p`, as the loop sees it.
abbrev front_at : List Level → ℕ → Option PendingEntry
front_at levels p = peek_front (level_at levels p).ring

-- What the loop knows when it has seen the levels below `p`.
abbrev BestBelow : List Level → ℕ → Option (ℕ × Time) → Type 0
BestBelow levels p none = (j : ℕ) → j < p → front_at levels j ≡ none
BestBelow levels p (some (b, t)) =
    (e : PendingEntry) × (b < p)
    × (front_at levels b ≡ some e)
    × (e.arrived_at ≡ t)
    × ((j : ℕ) (e' : PendingEntry)
        → j < p
        → front_at levels j ≡ some e'
        → (t ≤ℤ e'.arrived_at) × (j < b → t <ℤ e'.arrived_at))

below_suc : {j p : ℕ} → j < p + 1 → (j < p) ⊎ (j ≡ p)
below_suc {j} {p} h = omega arith

better_earlier :
    (x : PendingEntry) (p b : ℕ) (t : Time)
    → ltb_ℤ x.arrived_at t ≡ true
    → better (some x) p (some (b, t)) ≡ some (p, x.arrived_at)
unfolding better
better_earlier x p b t h = rw h

better_later :
    (x : PendingEntry) (p b : ℕ) (t : Time)
    → ltb_ℤ x.arrived_at t ≡ false
    → better (some x) p (some (b, t)) ≡ some (b, t)
unfolding better
better_later x p b t h = rw h

better-BestBelow :
    (levels : List Level) (p : ℕ) (front : Option PendingEntry) (best : Option (ℕ × Time))
    → front_at levels p ≡ front
    → BestBelow levels p best
    → BestBelow levels (p + 1) (better front p best)
unfolding better
better-BestBelow levels p none none f h =
    λ j lt. elim (below_suc lt) [ inl below ↦ h j below | inr same ↦ ap (front_at levels) same ∙ f ]
better-BestBelow levels p (some e) none f h = (
  e,
  omega arith,
  f,
  refl,
  λ j e' lt g. elim (below_suc lt) [
    | inl below ↦ ground (arith, h j below)
    | inr same ↦ ground (arith, ap (front_at levels) same)
  ],
)
better-BestBelow levels p none (some (b, t)) f (e, lt, g, at, least) = (
  e,
  omega arith,
  g,
  at,
  λ j e' lt' g'. elim (below_suc lt') [
    | inl below ↦ least j e' below g'
    | inr same ↦ ground (arith, ap (front_at levels) same)
  ],
)
better-BestBelow levels p (some x) (some (b, t)) f (e, lt, g, at, least) =
    elim (Bool-cases (ltb_ℤ x.arrived_at t)) [
      | inl earlier ↦ subst⁻¹ (BestBelow levels (p + 1)) (better_earlier x p b t earlier) (
        x,
        omega arith,
        f,
        refl,
        λ j e' lt' g'. elim (below_suc lt') [
          | inl below ↦ ground (arith, least j e' below g')
          | inr same ↦ ground (arith, ap (front_at levels) same)
        ],
      )
      | inr later ↦ subst⁻¹ (BestBelow levels (p + 1)) (better_later x p b t later) (
        e,
        omega arith,
        g,
        at,
        λ j e' lt' g'. elim (below_suc lt') [
          | inl below ↦ least j e' below g'
          | inr same ↦ ground (arith, ap (front_at levels) same)
        ],
      )
    ]

scan_oldest-BestBelow :
    (levels : List Level) (n p : ℕ) (best : Option (ℕ × Time))
    → BestBelow levels p best
    → BestBelow levels (p + n) (scan_oldest levels n p best)
unfolding scan_oldest
scan_oldest-BestBelow levels zero p best h = subst (λ k. BestBelow levels k best) (omega arith) h
scan_oldest-BestBelow levels (suc n) p best h =
    subst
      (λ k. BestBelow levels k (scan_oldest levels n (p + 1) (better (front_at levels p) p best)))
      (omega arith)
      (scan_oldest-BestBelow levels n (p + 1) _
        (better-BestBelow levels p (front_at levels p) best refl h))

-- The outcome of the search below the threshold: the entry taken is a first entry of a level, no
-- first entry arrived before it, and a lower level's first entry arrived after it.
abbrev pub OldestBelow : ℕ → PriorityIndex → ℕ → Option PendingEntry × PriorityIndex → Type 0
OldestBelow limit pi hi (none, pi') = (pi' ≡ pi) × EmptyBetween pi 0 hi
OldestBelow limit pi hi (some e, pi') =
    (b : ℕ) × (b < hi)
    × TakesFront limit pi pi' b e
    × ((j : ℕ) (e' : PendingEntry) (rest : Queue)
        → j < hi
        → queue_at (queues pi) j ≡ e' ∷ rest
        → (e.arrived_at ≤ℤ e'.arrived_at) × (j < b → e.arrived_at <ℤ e'.arrived_at))

front_at-queue :
    (limit p : ℕ) (pi : PriorityIndex)
    → IsValid limit pi
    → p < max_priority
    → front_at pi.levels p ≡ Queue.peek (queue_at (queues pi) p)
front_at-queue limit p pi v hp =
    peek_front_refines _ (level-IsValid limit p pi v hp).ring_valid
    ∙ ap Queue.peek (sym (queue_at-queues_of pi.levels p))

peek-none : (q : Queue) → Queue.peek q ≡ none → q ≡ []
unfolding Queue.peek
peek-none [] h = refl
peek-none (x ∷ q) h = cc

arrival-eq :
    {x y : PendingEntry}
    → ◌≡◌ {A = Option PendingEntry} (some x) (some y)
    → x.arrived_at ≡ y.arrived_at
arrival-eq h = ground arith

peek-nil : (q : Queue) → q ≡ [] → Queue.peek q ≡ none
unfolding Queue.peek
peek-nil q h = rw h

peek-cons : (q : Queue) (e : PendingEntry) (rest : Queue) → q ≡ e ∷ rest → Queue.peek q ≡ some e
unfolding Queue.peek
peek-cons q e rest h = rw h

pop_oldest-none :
    (threshold : ℕ) (pi : PriorityIndex)
    → scan_oldest pi.levels (min threshold max_priority) 0 none ≡ none
    → pop_oldest threshold pi ≡ (none, pi)
unfolding pop_oldest
pop_oldest-none threshold pi h = rw (h, pop_oldest)

pop_oldest-some :
    (threshold b : ℕ) (t : Time) (e : PendingEntry) (pi : PriorityIndex)
    → scan_oldest pi.levels (min threshold max_priority) 0 none ≡ some (b, t)
    → (pop_front (level_at pi.levels b).ring).0 ≡ some e
    → pop_oldest threshold pi ≡ (some e, after_pop pi b (pop_front (level_at pi.levels b).ring).1)
unfolding pop_oldest
pop_oldest-some threshold b t e pi h g = rw (h, pop_oldest) (rw g)

pub pop_oldest-OldestBelow :
    (limit threshold : ℕ) (pi : PriorityIndex)
    → IsValid limit pi
    → OldestBelow limit pi (min threshold max_priority) (pop_oldest threshold pi)
pop_oldest-OldestBelow limit threshold pi v =
    go _ refl (scan_oldest-BestBelow pi.levels hi 0 none (λ j lt. absurd (omega arith)))
  where
    hi : ℕ
    hi = min threshold max_priority

    front : (j : ℕ) → j < hi → front_at pi.levels j ≡ Queue.peek (queue_at (queues pi) j)
    front j lt = front_at-queue limit j pi v (omega arith)

    peeked :
        (j : ℕ)
        → j < max_priority
        → front_at pi.levels j ≡ Queue.peek (linearize (level_at pi.levels j).ring)
    peeked j lt = peek_front_refines _ (level-IsValid limit j pi v lt).ring_valid

    go :
        (best : Option (ℕ × Time))
        → scan_oldest pi.levels hi 0 none ≡ best
        → BestBelow pi.levels (0 + hi) best
        → OldestBelow limit pi hi (pop_oldest threshold pi)
    go none e h =
        subst⁻¹ (OldestBelow limit pi hi) (pop_oldest-none threshold pi e)
          (refl, λ j lo lt. peek-none _ (sym (front j lt) ∙ h j (omega arith)))
    go (some (b, t)) e (x, lt, f, at, least) =
        elim (pop_front_cases _ (level-IsValid limit b pi v (omega arith)).ring_valid) [
          | inl (failed, empty) ↦ absurd (cc (f, peeked b (omega arith), peek-nil _ empty))
          | inr (y, rest, found, cons, left) ↦
              subst⁻¹ (OldestBelow limit pi hi) (pop_oldest-some threshold b t y pi e found) (
                b,
                omega arith,
                after_pop-TakesFront limit b pi y rest v (omega arith) found cons left,
                λ j e' rest' lt' g.
                    subst (λ k. (k ≤ℤ e'.arrived_at) × (j < b → k <ℤ e'.arrived_at))
                      (sym at
                        ∙ arrival-eq (sym f ∙ peeked b (omega arith) ∙ peek-cons _ y rest cons))
                      (least j e' (omega arith) (front j lt' ∙ peek-cons _ e' rest' g)),
              )
        ]

-- The outcome of `PopWithThreshold(threshold)`. An entry comes from the highest level that has one,
-- if that is at the threshold or above, and else is the one below it that arrived earliest. Without
-- an entry all levels are empty.
abbrev pub ThresholdOutcome : ℕ → PriorityIndex → ℕ → Option PendingEntry × PriorityIndex → Type 0
ThresholdOutcome limit pi threshold (none, pi') = (pi' ≡ pi) × EmptyBetween pi 0 max_priority
ThresholdOutcome limit pi threshold (some e, pi') =
    HighestFrom limit pi threshold max_priority (some e, pi')
    ⊎ EmptyBetween pi threshold max_priority
      × OldestBelow limit pi (min threshold max_priority) (some e, pi')

merge :
    (limit t : ℕ) (pi : PriorityIndex) (out : Option PendingEntry × PriorityIndex)
    → EmptyBetween pi t max_priority
    → OldestBelow limit pi (min t max_priority) out
    → ThresholdOutcome limit pi t out
merge limit t pi (none, pi') above (same, below) = (
  same,
  λ j lo hi. elim (Bool-cases (ltb j t)) [
    | inl lt ↦ below j lo (omega (arith, ltb→lt j t lt))
    | inr ge ↦ above j (ltb_false→le j t ge) hi
  ],
)
merge limit t pi (some e, pi') above h = inr (above, h)

-- On an index that satisfies the invariant and for a threshold that is not negative,
-- `PopWithThreshold` returns. An entry it returns is the oldest of the highest level that has
-- one, if that is at the threshold or above, and else is the one below it that arrived earliest
-- (of the lowest level, where several did), and only that entry is taken out. Without an entry
-- all levels are empty and nothing changes.
pub pop_with_threshold-Outcome :
    (limit threshold : ℕ) (pi : PriorityIndex)
    → IsValid limit pi
    → (out : Option PendingEntry × PriorityIndex) × (pop_with_threshold (pos threshold) pi
        ≡ some out)
      × ThresholdOutcome limit pi threshold out
unfolding pop_with_threshold
pop_with_threshold-Outcome limit threshold pi v =
    go _ _ refl (pop_down-HighestFrom limit max_priority threshold pi v (omega arith))
  where
    go :
        (a : Option PendingEntry) (pi' : PriorityIndex)
        → pop_down max_priority threshold pi ≡ (a, pi')
        → HighestFrom limit pi threshold max_priority (a, pi')
        → (out : Option PendingEntry × PriorityIndex) × (pop_with_threshold (pos threshold) pi
            ≡ some out)
          × ThresholdOutcome limit pi threshold out
    go (some e) pi' p h = ((some e, pi'), ground arith, inl h)
    go none pi' p (same, above) = (
      pop_oldest threshold pi,
      ground arith,
      merge limit threshold pi _ above (pop_oldest-OldestBelow limit threshold pi v),
    )
