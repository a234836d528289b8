-- ===== src/Replay/Prioritized.antt =====
-- `PrioritizedReplayBuffer`: transitions are drawn by their priorities. Floats and the random numbers
-- are parameters; the mutex makes each method one step.
pub mod Draws
pub mod Maximum
use nya_queue.Prelude.{
  ℕ, zero, suc, ◌+◌, ◌%◌, Bool, true, false, List, [], ◌∷◌, map, ltb, ◌==◌, if◌then◌else◌, length,
  get_or, set, take, replicate,
}
use nya_queue.Prelude.Int.{ℤ, pos, negsuc}
use nya_queue.Balancer.{Floats}
use nya_queue.Replay.{Transition, Powers}

module _ (f : Floats) (m : Powers f) where
  open f use {Float, of_int, plus, times, divide, less, less_equal}

  -- `size` and `write_idx` are ints that count the pushes, of which there are fewer than 2 ^ 63.
  pub record Prioritized : Type 0 where
    pub transitions : List (Transition Float)
    pub priorities : List Float
    pub capacity : ℕ
    pub size : ℕ
    pub write_idx : ℕ
    pub alpha : Float
    pub default_prio : Float
    pub max_priority : Float

  -- `zero_transition` is what `make` fills the slots with.
  unfoldable pub new_prioritized : Transition Float → ℕ → Float → Prioritized
  new_prioritized zero_transition capacity alpha = record {
    transitions = replicate capacity zero_transition;
    priorities = replicate capacity (of_int 0);
    capacity = capacity;
    size = 0;
    write_idx = 0;
    alpha = alpha;
    default_prio = m.one;
    max_priority = m.one;
  }

  -- The capacity is positive: with 0 the source divides by zero.
  unfoldable pub push : Prioritized → Transition Float → Prioritized
  push b t =
      let idx = b.write_idx % b.capacity in
      record b {
        transitions = set b.transitions idx t;
        priorities = set b.priorities idx b.max_priority;
        write_idx = b.write_idx + 1;
        size = if ltb b.size b.capacity then b.size + 1 else b.size;
      }

  unfoldable pub sum_from : Float → List Float → Float
  sum_from total [] = total
  sum_from total (p ∷ ps) = sum_from (plus total p) ps

  -- The loop that looks for `r` among the sums: `idx` is the last place looked at, `j` the next.
  unfoldable pub find_sum : Float → Float → ℕ → ℕ → List Float → ℕ
  find_sum r cum idx j [] = idx
  find_sum r cum idx j (p ∷ ps) =
      let sum = plus cum p in
      let rest = find_sum r sum j (j + 1) ps in if less_equal r sum then j else rest

  -- One element of a batch: its index, its transition and its weight.
  pub record Drawn : Type 0 where
    pub index : ℕ
    pub transition : Transition Float
    pub weight : Float

  -- `left` rounds of the loop of `Sample`, with the largest weight so far. `draw i` is the random
  -- float of round `i`.
  unfoldable pub draw_from :
      Transition Float
      → Prioritized
      → List Float
      → Float
      → Float
      → (ℕ → Float)
      → ℕ
      → ℕ
      → Float
      → List Drawn × Float
  draw_from zero_transition b probs total beta draw i zero max_weight = ([], max_weight)
  draw_from zero_transition b probs total beta draw i (suc left) max_weight =
      let idx = find_sum (times (draw i) total) (of_int 0) 0 0 probs in
      let prob = divide (get_or probs idx (of_int 0)) total in
      let w = m.pow (times (of_int b.size) prob) (m.negate beta) in
      let (rest, largest) =
        draw_from zero_transition b probs total beta draw (i + 1) left
          (if less max_weight w then w else max_weight) in
      (
        record { index = idx; transition = get_or b.transitions idx zero_transition; weight = w }
            ∷ rest,
        largest,
      )

  unfoldable pub normalized : Float → Drawn → Drawn
  normalized largest d = record d { weight = divide d.weight largest }

  -- `is_zero` is the comparison of a float with 0.
  unfoldable pub sample :
      Transition Float → (Float → Bool) → (ℕ → Float) → Prioritized → ℕ → Float → List Drawn
  sample zero_transition is_zero draw b batch_size beta =
      let count = if ltb b.size batch_size then b.size else batch_size in
      let probs = map (λ p. m.pow p b.alpha) (take b.size b.priorities) in
      let sum = sum_from (of_int 0) probs in
      let total = if is_zero sum then m.one else sum in
      let (batch, largest) = draw_from zero_transition b probs total beta draw 0 count (of_int 0) in
      if b.size == 0
      then []
      else if less (of_int 0) largest
      then map (normalized largest) batch
      else batch

  unfoldable pub update_priority : Prioritized → ℤ → Float → Prioritized
  update_priority b (negsuc _) td_error = b
  update_priority b (pos idx) td_error =
      let p = plus (m.abs td_error) m.small in
      if ltb idx b.size
      then record b {
        priorities = set b.priorities idx p;
        max_priority = if less b.max_priority p then p else b.max_priority;
      }
      else b
