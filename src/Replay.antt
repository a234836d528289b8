-- ===== src/Replay.antt =====
-- pkg/nn/replay_buffer.go: the buffers of past experience that the networks are trained on, and the
-- schedule of an exponent. Floats are a parameter, and so is what the random numbers are. A slice
-- that is copied is the same list here.
pub mod Recent
pub mod Prioritized
mod Tests
use nya_queue.Prelude.{
  ℕ, zero, suc, ◌+◌, ◌-◌, ◌*◌, ◌%◌, min, Bool, true, false, Option, none, some, List, [], ◌∷◌, map,
  ltb, leb, ◌==◌, if◌then◌else◌, length, get_or, set, replicate,
}
use nya_queue.Prelude.Int.{ℤ, pos, negsuc}
use nya_queue.Prelude.Words.{add64}
use nya_queue.Balancer.{Floats}

pub record Transition (Float : Type 0) : Type 0 where
  pub state : List Float
  pub action : List Float
  pub reward : Float
  pub next_state : List Float
  pub is_done : Bool

-- A slot is nil until its first write. `write_idx` is an int64, by its bit pattern.
pub record ReplayBuffer (Float : Type 0) : Type 0 where
  pub slots : List (Option (Transition Float))
  pub capacity : ℕ
  pub write_idx : ℕ

-- What the buffers use of package math, and two constants: 1.0 and 1e-6.
pub record Powers (f : Floats) : Type 0 where
  pub pow : f.Float → f.Float → f.Float
  pub abs : f.Float → f.Float
  pub negate : f.Float → f.Float
  pub one : f.Float
  pub small : f.Float

module _ {Float : Type 0} where
  unfoldable pub new_replay_buffer : ℕ → ReplayBuffer Float
  new_replay_buffer capacity = record {
    slots = replicate capacity none;
    capacity = capacity;
    write_idx = 0;
  }

  -- The capacity is positive: with 0 the source divides by zero.
  unfoldable pub push : ReplayBuffer Float → Transition Float → ReplayBuffer Float
  push rb t = record rb {
    slots = set rb.slots (rb.write_idx % rb.capacity) (some t);
    write_idx = add64 rb.write_idx 1;
  }

  unfoldable pub len : ReplayBuffer Float → ℕ
  len rb = if leb rb.capacity rb.write_idx then rb.capacity else rb.write_idx

  -- `left` rounds of the loop of `SampleInto` from `i` on. `draw i` is the random number of round
  -- `i`, reduced to the range that `rand.IntN` is called for.
  unfoldable pub sample_from :
      List (Option (Transition Float))
      → ℕ
      → (ℕ → ℕ)
      → ℕ
      → ℕ
      → List (Transition Float)
      → List (Transition Float)
  sample_from slots n draw i zero dst = dst
  sample_from slots n draw i (suc left) dst =
      sample_from slots n draw (i + 1) left
        (elim (get_or slots (draw i % n) none) [ some t ↦ set dst i t | none ↦ dst ])

  unfoldable pub sample_into :
      ReplayBuffer Float → (ℕ → ℕ) → List (Transition Float) → ℕ × List (Transition Float)
  sample_into rb draw dst =
      let n = len rb in
      let count = if ltb n (length dst) then n else length dst in
      if n == 0 then (0, dst) else (count, sample_from rb.slots n draw 0 count dst)

  -- `zero_transition` is what `make` fills the batch with.
  unfoldable pub sample :
      ReplayBuffer Float → (ℕ → ℕ) → Transition Float → ℕ → List (Transition Float)
  sample rb draw zero_transition batch_size =
      let n = len rb in
      let size = if ltb n batch_size then n else batch_size in
      if n == 0 then [] else (sample_into rb draw (replicate size zero_transition)).1

module _ (f : Floats) where
  open f use {Float, of_int, plus, minus, times, divide, less, less_equal}

  pub record BetaSchedule : Type 0 where
    pub start : Float
    pub last : Float
    pub steps : ℤ
    pub current : ℕ

  unfoldable pub new_beta_schedule : Float → Float → ℤ → BetaSchedule
  new_beta_schedule start last steps = record {
    start = start;
    last = last;
    steps = steps;
    current = 0;
  }

  unfoldable pub next_beta : Float → BetaSchedule → Float × BetaSchedule
  next_beta one b = elim b.steps [
    | negsuc _ ↦ (b.last, b)
    | pos steps ↦
        let frac = divide (of_int b.current) (of_int steps) in
        let clipped = if less one frac then one else frac in
        if steps == 0 then (b.last, b) else (
          plus b.start (times (minus b.last b.start) clipped),
          record b { current = b.current + 1 },
        )
  ]
