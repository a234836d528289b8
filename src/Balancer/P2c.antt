-- ===== src/Balancer/P2c.antt =====
-- pkg/balancer/p2c.go: the better of two partitions taken at random. The random draws are arguments,
-- and so are the default weights. Queue depths and numbers of partitions are not negative. An array
-- of counters is shared between the balancer and a selection, one at a time.
pub mod Choice
pub mod Inflight
use nya_queue.Prelude.{
  ℕ, zero, suc, ◌+◌, ◌-◌, max, Bool, true, false, ◌&&◌, Option, none, some, List, [], ◌∷◌, map, ltb,
  leb, ◌==◌, if◌then◌else◌, length, get_or, set, replicate,
}
use mathlib.Core.List.{foldl}
use nya_queue.Prelude.Words.{add64, sub64}
use nya_queue.Balancer.{Floats}

-- The second partition: a draw among the others.
unfoldable pub second : ℕ → ℕ → ℕ
second a b = if leb a b then b + 1 else b

module _ (f : Floats) where
  open f use {Float, of_int, plus, minus, times, divide, less}

  pub record PowerOfTwoChoices : Type 0 where
    pub load_ewma : Option (List Float)
    pub depth_norm : Option (List Float)
    pub inflight : Option (List ℕ)
    pub alpha : Float
    pub load_weight : Float
    pub depth_weight : Float
    pub inflight_weight : Float

  pub data P2cOption : Type 0 where
    with_load_weight with_depth_weight with_alpha with_inflight_weight : Float → P2cOption

  unfoldable pub apply_option : PowerOfTwoChoices → P2cOption → PowerOfTwoChoices
  apply_option p (with_load_weight w) = record p { load_weight = w }
  apply_option p (with_depth_weight w) = record p { depth_weight = w }
  apply_option p (with_alpha a) = record p { alpha = a }
  apply_option p (with_inflight_weight w) = record p { inflight_weight = w }

  -- The defaults are 0.3, 1.0, 1.0 and 2.0.
  unfoldable pub new_power_of_two_choices :
      Float → Float → Float → Float → List P2cOption → PowerOfTwoChoices
  unfolding apply_option
  new_power_of_two_choices alpha load depth inflight opts =
      foldl apply_option
        (record {
          load_ewma = none;
          depth_norm = none;
          inflight = none;
          alpha = alpha;
          load_weight = load;
          depth_weight = depth;
          inflight_weight = inflight;
        })
        opts

  -- The counters, which then are the balancer's.
  unfoldable pub ensure_inflight : PowerOfTwoChoices → ℕ → List ℕ
  ensure_inflight p n = elim p.inflight [
    | none ↦ replicate n 0
    | some xs ↦ if leb n (length xs) then xs else replicate n 0
  ]

  -- A term of the score: nothing, if there are no data for the partition.
  unfoldable pub add_term : Float → Float → Option (List Float) → ℕ → Float
  add_term s weight none i = s
  add_term s weight (some xs) i =
      if ltb i (length xs) then plus s (times weight (get_or xs i (of_int 0))) else s

  unfoldable pub score : PowerOfTwoChoices → ℕ → List ℕ → Float
  unfolding add_term
  score p i inflight =
      let loaded = add_term (of_int 0) p.load_weight p.load_ewma i in
      let deep = add_term loaded p.depth_weight p.depth_norm i in
      if ltb i (length inflight)
      then plus deep (times p.inflight_weight (of_int (get_or inflight i 0)))
      else deep

  unfoldable pub choose : Float → Float → ℕ → ℕ → ℕ → ℕ
  choose sa sb a b coin =
      if less sa sb then a else if less sb sa then b else if coin == 0 then a else b

  -- The counter of the partition chosen goes up.
  unfoldable pub count_up : PowerOfTwoChoices → List ℕ → ℕ → PowerOfTwoChoices
  count_up p xs i = record p { inflight = some (set xs i (add64 (get_or xs i 0) 1)) }

  -- `a` and `b` are draws below `n` and `n - 1`, and `coin` one below 2.
  unfoldable pub select_partition : PowerOfTwoChoices → ℕ → ℕ → ℕ → ℕ → ℕ × PowerOfTwoChoices
  select_partition p n a b coin =
      if leb n 1
      then (0, count_up p (ensure_inflight p 1) 0)
      else let xs = ensure_inflight p n in
        let other = second a b in
        let chosen = choose (score p a xs) (score p other xs) a other coin in
        (chosen, count_up p xs chosen)

  unfoldable pub on_publish_complete : PowerOfTwoChoices → ℕ → PowerOfTwoChoices
  on_publish_complete p i = elim p.inflight [
    | none ↦ p
    | some xs ↦
        if ltb i (length xs)
        then record p { inflight = some (set xs i (sub64 (get_or xs i 0) 1)) }
        else p
  ]

  -- `p.alpha*sample[i] + (1-p.alpha)*old[i]`, for lists of one length.
  unfoldable pub mix : Float → List Float → List Float → List Float
  mix alpha (s ∷ sample) (o ∷ old) =
      plus (times alpha s) (times (minus (of_int 1) alpha) o) ∷ mix alpha sample old
  mix alpha [] old = []
  mix alpha (s ∷ sample) [] = []

  unfoldable pub update_load_ewma : PowerOfTwoChoices → List Float → PowerOfTwoChoices
  update_load_ewma p sample = record p {
    load_ewma = some (elim p.load_ewma [
      | none ↦ sample
      | some old ↦ if length old == length sample then mix p.alpha sample old else sample
    ]);
  }

  unfoldable pub update_depth_norm : PowerOfTwoChoices → List ℕ → PowerOfTwoChoices
  update_depth_norm p depths =
      let most = foldl max 0 depths in
      let inv = divide (of_int 1) (of_int most) in
      record p {
        depth_norm = some (
            if ltb 0 most
            then map (λ d. times (of_int d) inv) depths
            else map (λ d. of_int 0) depths);
      }

  -- For the loads and the depths in the metrics.
  unfoldable pub on_metrics : PowerOfTwoChoices → List Float → List ℕ → PowerOfTwoChoices
  on_metrics p loads depths =
      let loaded = if ltb 0 (length loads) then update_load_ewma p loads else p in
      if ltb 0 (length depths) then update_depth_norm loaded depths else loaded
