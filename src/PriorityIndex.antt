-- ===== src/PriorityIndex.antt =====
-- pkg/broker/priority_index.go: `PriorityIndex`, ten levels of pending entries. A method returns the
-- new index beside its results. The critical sections of one call follow one another undisturbed.
pub mod Invariant
pub mod Levels
pub mod Add
pub mod Pop
pub mod Threshold
pub mod Delivery
pub mod Promote
pub mod Rounds
pub mod OneStep
mod Tests
use nya_queue.Prelude.{
  ℕ, zero, suc, ◌+◌, ◌-◌, ◌%◌, ◌^◌, min, Bool, true, false, Option, none, some, List, [], ◌∷◌, ◌++◌,
  map, ltb, leb, if◌then◌else◌, length, get_or, set, replicate,
}
use mathlib.Core.List.{foldl}
use mathlib.Core.Option
use nya_queue.Prelude.Int.{ℤ, pos, negsuc, ◌-ℤ◌, ltb_ℤ}
use nya_queue.Prelude.Words.{mod32, add32, sub32, add64, sub64, extend32}
use nya_queue.EntryRing.{
  Time, PendingEntry, zero_entry, EntryRing, push_back, pop_front, peek_front, linearize,
  reset_from,
}

abbrev pub max_priority : ℕ
max_priority = 10

-- `count` is an int32 and `total` an int64, by their bit patterns.
pub record Level : Type 0 where
  pub ring : EntryRing
  pub count : ℕ

pub record PriorityIndex : Type 0 where
  pub levels : List Level
  pub total : ℕ
  pub max_per_level : ℤ

abbrev pub zero_level : Level
zero_level = record { ring = record { buf = []; head = 0; size = 0; cap = 0 }; count = 0 }

abbrev pub level_at : List Level → ℕ → Level
level_at levels p = get_or levels p zero_level

-- `WithMaxPerLevel(n)` is the only option: the options are the numbers given.
unfoldable pub apply_options : List ℤ → ℤ
apply_options = foldl (λ _ n. n) (pos 0)

unfoldable pub fresh_level : ℤ → Level
fresh_level (pos zero) = zero_level
fresh_level (pos (suc n)) = record {
  ring = record { buf = replicate (suc n) zero_entry; head = 0; size = 0; cap = suc n };
  count = 0;
}
fresh_level (negsuc n) = zero_level

unfoldable pub new_priority_index : List ℤ → PriorityIndex
unfolding apply_options fresh_level
new_priority_index opts =
    let most = apply_options opts in
    record { levels = replicate max_priority (fresh_level most); total = 0; max_per_level = most }

unfoldable pub clamp_priority : ℤ → ℕ
clamp_priority (pos p) = if leb max_priority p then max_priority - 1 else p
clamp_priority (negsuc n) = 0

-- The result is false where the level was full and its oldest entry was evicted.
unfoldable pub add : PriorityIndex → ℤ → ℕ → Time → Bool × PriorityIndex
add pi priority offset arrived =
    let p = clamp_priority priority in
    let lv = level_at pi.levels p in
    let (evicted, ring) =
      push_back lv.ring (record { wal_offset = offset; arrived_at = arrived }) in
    elim evicted [
      | some _ ↦ (false, record pi { levels = set pi.levels p (record lv { ring = ring }) })
      | none ↦ (
        true,
        record pi {
          levels = set pi.levels p (record { ring = ring; count = add32 lv.count 1 });
          total = add64 pi.total 1;
        },
      )
    ]

-- The bookkeeping after a `popFront` of level `p` that left the given ring.
unfoldable pub after_pop : PriorityIndex → ℕ → EntryRing → PriorityIndex
after_pop pi p ring = record pi {
  levels = set pi.levels p (record { ring = ring; count = sub32 (level_at pi.levels p).count 1 });
  total = sub64 pi.total 1;
}

-- One round of the loops that pop from the top. A `popFront` that fails changes nothing.
unfoldable pub pop_level : ℕ → PriorityIndex → Option PendingEntry × PriorityIndex
unfolding after_pop
pop_level p pi =
    let (out, ring) = pop_front (level_at pi.levels p).ring in
    elim out [ none ↦ (none, pi) | some e ↦ (some e, after_pop pi p ring) ]

-- `for p := next - 1; p >= lowest; p--`
unfoldable pub pop_down : ℕ → ℕ → PriorityIndex → Option PendingEntry × PriorityIndex
pop_down zero lowest pi = (none, pi)
pop_down (suc p) lowest pi = elim (ltb p lowest) [
  | true ↦ (none, pi)
  | false ↦
      let (out, pi') = pop_level p pi in
      elim out [ none ↦ pop_down p lowest pi | some e ↦ (some e, pi') ]
]

unfoldable pub pop_highest : PriorityIndex → Option PendingEntry × PriorityIndex
pop_highest pi = pop_down max_priority 0 pi

-- `bestPriority` and `bestTime` after level `p` was looked at; `none` is `bestPriority == -1`.
unfoldable pub better : Option PendingEntry → ℕ → Option (ℕ × Time) → Option (ℕ × Time)
better none p best = best
better (some e) p none = some (p, e.arrived_at)
better (some e) p (some (b, t)) =
    if ltb_ℤ e.arrived_at t then some (p, e.arrived_at) else some (b, t)

-- `n` rounds of the loop from level `p` on.
unfoldable pub scan_oldest : List Level → ℕ → ℕ → Option (ℕ × Time) → Option (ℕ × Time)
scan_oldest levels zero p best = best
scan_oldest levels (suc n) p best =
    scan_oldest levels n (p + 1) (better (peek_front (level_at levels p).ring) p best)

unfoldable pub pop_oldest : ℕ → PriorityIndex → Option PendingEntry × PriorityIndex
unfolding after_pop
pop_oldest threshold pi = elim (scan_oldest pi.levels (min threshold max_priority) 0 none) [
  | none ↦ (none, pi)
  | some (b, _) ↦
      let (out, ring) = pop_front (level_at pi.levels b).ring in
      (some (Option.get_or out zero_entry), after_pop pi b ring)
]

-- `none` is a panic: below level 0 the first loop indexes out of range.
unfoldable pub pop_with_threshold : ℤ → PriorityIndex → Option (Option PendingEntry × PriorityIndex)
pop_with_threshold (pos threshold) pi =
    let (out, pi') = pop_down max_priority threshold pi in
    elim out [ none ↦ some (pop_oldest threshold pi) | some e ↦ some (some e, pi') ]
pop_with_threshold (negsuc n) pi =
    let (out, pi') = pop_down max_priority 0 pi in
    elim out [ none ↦ none | some e ↦ some (some e, pi') ]

abbrev pub len : PriorityIndex → ℕ
len pi = pi.total

unfoldable pub level_distribution : PriorityIndex → List ℕ
level_distribution pi = map (λ lv. extend32 lv.count) pi.levels

-- `u.Sub(t)`, which stops at the ends of int64.
unfoldable pub time_sub : Time → Time → ℤ
time_sub u t =
    let d = u -ℤ t in
    if ltb_ℤ (pos (2 ^ 63 - 1)) d
    then pos (2 ^ 63 - 1)
    else if ltb_ℤ d (negsuc (2 ^ 63 - 1))
    then negsuc (2 ^ 63 - 1)
    else d

module _ (now : Time) (ttl : ℤ) where
  unfoldable pub is_stale : PendingEntry → Bool
  unfolding time_sub
  is_stale e = ltb_ℤ ttl (time_sub now e.arrived_at)

  -- The loop that sorts `all` into `stale` and `fresh`.
  unfoldable pub split_stale :
      List PendingEntry
      → List PendingEntry
      → List PendingEntry
      → List PendingEntry × List PendingEntry
  split_stale [] stale fresh = (stale, fresh)
  split_stale (e ∷ es) stale fresh =
      split_stale es (if is_stale e then stale ++ (e ∷ []) else stale)
        (if is_stale e then fresh else fresh ++ (e ∷ []))

-- The loop that pushes the stale entries, with the index's `total`.
unfoldable pub push_all : EntryRing → List PendingEntry → ℕ → EntryRing × ℕ
push_all ring [] total = (ring, total)
push_all ring (e ∷ es) total =
    let (evicted, ring') = push_back ring e in
    push_all ring' es (elim evicted [ none ↦ total | some _ ↦ sub64 total 1 ])

-- The second half of a round, for the stale entries of level `p`.
unfoldable pub promote_into : PriorityIndex → ℕ → List PendingEntry → PriorityIndex
promote_into pi p [] = pi
promote_into pi p (e ∷ es) =
    let (ring, total) = push_all (level_at pi.levels (p + 1)).ring (e ∷ es) pi.total in
    record pi {
      levels = set pi.levels (p + 1) (record { ring = ring; count = ring.size % mod32 });
      total = total;
    }

module _ (now : Time) (ttl : ℤ) where
  unfoldable pub promote_level : ℕ → PriorityIndex → PriorityIndex
  promote_level p pi =
      let lv = level_at pi.levels p in
      let (stale, fresh) = split_stale now ttl (linearize lv.ring) [] [] in
      let kept : Level = record { ring = reset_from lv.ring fresh; count = length fresh % mod32 } in
      promote_into (record pi { levels = set pi.levels p kept }) p stale

  -- `for p := next - 1; p >= 0; p--`
  unfoldable pub promote_down : ℕ → PriorityIndex → PriorityIndex
  promote_down zero pi = pi
  promote_down (suc p) pi = promote_down p (promote_level p pi)

  unfoldable pub promote_stale : PriorityIndex → PriorityIndex
  promote_stale pi = promote_down (max_priority - 1) pi
