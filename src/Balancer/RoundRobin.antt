-- ===== src/Balancer/RoundRobin.antt =====
-- pkg/balancer/round_robin.go: partitions in turn, past those that are loaded. The number of
-- partitions is positive: with 0 the source divides by zero, and callers pass a topic's partitions.
pub mod Rotation
pub mod Skipping
use nya_queue.Prelude.{
  ℕ, zero, suc, ◌+◌, ◌%◌, Bool, true, false, ◌&&◌, Option, none, some, List, [], ◌∷◌, ltb,
  if◌then◌else◌, length, get_or,
}
use mathlib.Core.List.{foldl}
use nya_queue.Prelude.Int.{ℤ, pos, negsuc}
use nya_queue.Prelude.Words.{add64}
use nya_queue.Balancer.{Floats}

module _ (f : Floats) where
  open f use {Float, less}

  -- An option sets the threshold or the budget.
  pub data RrOption : Type 0 where
    skip_threshold : Float → RrOption
    skip_budget : ℤ → RrOption

  pub record RoundRobin : Type 0 where
    pub counter : ℕ
    pub loads : Option (List Float)
    pub threshold : Float
    pub budget : ℤ

  unfoldable pub apply_option : RoundRobin → RrOption → RoundRobin
  apply_option rr (skip_threshold t) = record rr { threshold = t }
  apply_option rr (skip_budget b) = record rr { budget = b }

  -- `default_threshold` is 0.9.
  unfoldable pub new_round_robin : Float → List RrOption → RoundRobin
  unfolding apply_option
  new_round_robin default_threshold opts =
      foldl apply_option
        (record { counter = 0; loads = none; threshold = default_threshold; budget = pos 2 }) opts

  -- Whether a partition's load is known and above the threshold.
  unfoldable pub is_loaded : List Float → Float → ℕ → Bool
  is_loaded loads threshold i = ltb i (length loads) && less threshold (get_or loads i (f.of_int 0))

  -- `tries` rounds of the loop from partition `i` on.
  unfoldable pub skip_loaded : List Float → Float → ℕ → ℕ → ℕ → ℕ
  skip_loaded loads threshold n zero i = i
  skip_loaded loads threshold n (suc tries) i =
      let next = skip_loaded loads threshold n tries ((i + 1) % n) in
      if is_loaded loads threshold i then next else i

  unfoldable pub select_partition : RoundRobin → ℕ → ℕ × RoundRobin
  select_partition rr num_partitions =
      let n = add64 rr.counter 1 in
      let rr' : RoundRobin = record rr { counter = n } in
      let idx = n % num_partitions in
      elim rr.budget [
        | negsuc _ ↦ (idx, rr')
        | pos budget ↦ elim rr.loads [
          | none ↦ (idx, rr')
          | some loads ↦ (skip_loaded loads rr.threshold num_partitions budget idx, rr')
        ]
      ]

  -- `OnMetrics`, for the loads in the metrics.
  unfoldable pub on_metrics : RoundRobin → List Float → RoundRobin
  on_metrics rr [] = rr
  on_metrics rr (l ∷ ls) = record rr { loads = some (l ∷ ls) }
