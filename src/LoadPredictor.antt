-- ===== src/LoadPredictor.antt =====
-- pkg/broker/load_predictor.go: the loads of the partitions to come, by autoregression. Floats are a
-- parameter. The scratch buffers, which keep no value from one use to the next, are left out.
pub mod Ring
pub mod Forecast
pub mod Histories
pub mod Predictions
mod Tests
use nya_queue.Prelude.{
  ℕ, zero, suc, ◌+◌, ◌-◌, ◌*◌, ◌/◌, ◌%◌, min, Bool, true, false, ◌||◌, Option, none, some, List, [],
  ◌∷◌, ◌++◌, map, ltb, leb, ◌==◌, if◌then◌else◌, length, get_or, set, take, drop, copy, replicate,
}
use nya_queue.Balancer.{Floats}

-- `write_idx` counts the pushes; the source keeps it in an int64.
pub record RingBuffer (Float : Type 0) : Type 0 where
  pub slots : List Float
  pub write_idx : ℕ

module _ {Float : Type 0} where
  unfoldable pub new_ring_buffer : Float → ℕ → RingBuffer Float
  new_ring_buffer zero_float size = record { slots = replicate size zero_float; write_idx = 0 }

  -- The size is positive: with 0 the source divides by zero.
  unfoldable pub push : RingBuffer Float → Float → RingBuffer Float
  push rb v = record {
    slots = set rb.slots (rb.write_idx % length rb.slots) v;
    write_idx = rb.write_idx + 1;
  }

  -- `copyInto` of the first `n` values, in the order of their writes.
  unfoldable pub copy_into : RingBuffer Float → List Float → ℕ → ℕ → ℕ → List Float
  copy_into rb dst w size n =
      let start = w % size in
      let tail = if ltb n (size - start) then n else size - start in
      let first = copy dst (take tail (drop start rb.slots)) in
      if leb w size
      then copy dst (take n rb.slots)
      else if ltb tail n
      then take tail first ++ copy (drop tail first) (take (n - tail) rb.slots)
      else first

  unfoldable pub values : Float → RingBuffer Float → List Float
  values zero_float rb =
      let w = rb.write_idx in
      let size = length rb.slots in
      let n = if ltb size w then size else w in
      if w == 0 then [] else copy_into rb (replicate n zero_float) w size n

  -- The number of values, and the destination with them at its front.
  unfoldable pub values_into : RingBuffer Float → List Float → ℕ × List Float
  values_into rb dst =
      let w = rb.write_idx in
      let size = length rb.slots in
      let m = if ltb size w then size else w in
      let n = if ltb (length dst) m then length dst else m in
      if w == 0 then (0, dst) else (n, copy_into rb (take n dst) w size n ++ drop n dst)

-- What the predictor uses beside the floats of a balancer: `int(math.Sqrt(float64(n)))` and the
-- constants 1.0 and 1e-15.
pub record Roots (f : Floats) : Type 0 where
  pub root : ℕ → ℕ
  pub one : f.Float
  pub tiny : f.Float

module _ (f : Floats) (c : Roots f) where
  open f use {Float, of_int, plus, minus, times, divide, less}

  unfoldable pub sum_from : Float → List Float → Float
  sum_from total [] = total
  sum_from total (v ∷ vs) = sum_from (plus total v) vs

  -- The sum of the products of deviations, from the `i`-th of `vals` on, with those `lag` before.
  unfoldable pub lag_sum : List Float → Float → ℕ → Float → ℕ → ℕ → Float
  lag_sum vals mean lag sum i zero = sum
  lag_sum vals mean lag sum i (suc left) =
      lag_sum vals mean lag
        (plus sum (
          times (minus (get_or vals i (of_int 0)) mean)
            (minus (get_or vals (i - lag) (of_int 0)) mean)))
        (i + 1) left

  -- `r[lag]`
  unfoldable pub autocovariance : List Float → Float → ℕ → Float
  autocovariance vals mean lag =
      let n = length vals in divide (lag_sum vals mean lag (of_int 0) lag (n - lag)) (of_int n)

  -- `sum -= a[j] * r[m-j]`, from `j` on.
  unfoldable pub less_products : (ℕ → Float) → ℕ → ℕ → Float → List Float → Float
  less_products r m j sum [] = sum
  less_products r m j sum (a ∷ rest) =
      less_products r m (j + 1) (minus sum (times a (r (m - j)))) rest

  -- `a[j] = aOld[j] - k*aOld[m-1-j]`, from `j` on.
  unfoldable pub reflected : List Float → Float → ℕ → ℕ → List Float → List Float
  reflected old k m j [] = []
  reflected old k m j (a ∷ rest) =
      minus a (times k (get_or old (m - 1 - j) (of_int 0))) ∷ reflected old k m (j + 1) rest

  -- The recursion of Levinson and Durbin: `left` rounds from `m` on.
  unfoldable pub levinson : (ℕ → Float) → ℕ → List Float → Float → ℕ → List Float
  levinson r m a e zero = a
  levinson r m a e (suc left) =
      let k = divide (less_products r m 0 (r (m + 1)) a) e in
      let rest =
        levinson r (m + 1) (reflected a k m 0 a ++ (k ∷ [])) (times e (minus c.one (times k k)))
          left in
      if less e c.tiny then a else rest

  -- `none` is nil.
  unfoldable pub yule_walker : List Float → Float → ℕ → Option (List Float)
  yule_walker vals mean p =
      let r : ℕ → Float = autocovariance vals mean in
      let a0 = divide (r 1) (r 0) in
      let a = levinson r 1 (a0 ∷ []) (times (r 0) (minus c.one (times a0 a0))) (p - 1) in
      if less (r 0) c.tiny then none else some a

  -- `pred += coeffs[j] * buf[idx-1-j]`, from `j` on.
  unfoldable pub weighted : List Float → ℕ → ℕ → Float → List Float → Float
  weighted buf idx j pred [] = pred
  weighted buf idx j pred (k ∷ rest) =
      weighted buf idx (j + 1) (plus pred (times k (get_or buf (idx - 1 - j) (of_int 0)))) rest

  unfoldable pub clamped : Float → Float
  clamped x =
      let up = if less x (of_int 0) then of_int 0 else x in if less c.one up then c.one else up

  -- `left` rounds of the loop of the forecast, behind what `buf` has.
  unfoldable pub forecast_from : List Float → Float → List Float → ℕ → List Float
  forecast_from coeffs mean buf zero = []
  forecast_from coeffs mean buf (suc left) =
      let pred = weighted buf (length buf) 0 (of_int 0) coeffs in
      clamped (plus pred mean) ∷ forecast_from coeffs mean (buf ++ (pred ∷ [])) left

  unfoldable pub mean_of : List Float → Float
  mean_of vals = divide (sum_from (of_int 0) vals) (of_int (length vals))

  unfoldable pub order_of : ℕ → ℕ → ℕ
  order_of window n =
      let max_order = if ltb (window / 4) 1 then 1 else window / 4 in
      if ltb max_order (c.root n) then max_order else c.root n

  unfoldable pub ar_predict : ℕ → List Float → ℕ → List Float
  ar_predict window vals horizon =
      let n = length vals in
      let mean = mean_of vals in
      let p = order_of window n in
      if n == 0
      then replicate horizon (of_int 0)
      else if ltb p 1 || ltb n (2 * p)
      then replicate horizon mean
      else elim (yule_walker vals mean p) [
        | none ↦ replicate horizon mean
        | some coeffs ↦ forecast_from coeffs mean (map (λ v. minus v mean) vals) horizon
      ]

  pub record PartitionPrediction : Type 0 where
    pub partition_id : ℕ
    pub current : Float
    pub predicted : List Float

  pub record LoadPredictor : Type 0 where
    pub predictions : List PartitionPrediction
    pub history : List (ℕ × RingBuffer Float)
    pub window : ℕ
    pub horizon : ℕ

  unfoldable pub new_load_predictor : ℕ → ℕ → LoadPredictor
  new_load_predictor window horizon = record {
    predictions = [];
    history = [];
    window = window;
    horizon = horizon;
  }

  -- The body of the loop of `predict`.
  unfoldable pub predict_one : ℕ → ℕ → ℕ × RingBuffer Float → PartitionPrediction
  predict_one window horizon (id, buf) =
      let (n, vals_buf) = values_into buf (replicate window (of_int 0)) in
      let vals = take n vals_buf in
      record {
        partition_id = id;
        current = if ltb 0 n then get_or vals (n - 1) (of_int 0) else of_int 0;
        predicted = ar_predict window vals horizon;
      }

  -- `visit` is the order in which `Range` goes through the map.
  unfoldable pub predict :
      (List (ℕ × RingBuffer Float) → List (ℕ × RingBuffer Float)) → LoadPredictor → LoadPredictor
  predict visit lp = record lp {
    predictions = map (predict_one lp.window lp.horizon) (visit lp.history);
  }

  -- `LoadOrCompute` and `Push`.
  unfoldable pub observe : ℕ → List (ℕ × RingBuffer Float) → ℕ → Float → List (ℕ × RingBuffer Float)
  observe window [] i load = (i, push (new_ring_buffer (of_int 0) window) load) ∷ []
  observe window ((j, buf) ∷ rest) i load =
      if j == i then (j, push buf load) ∷ rest else (j, buf) ∷ observe window rest i load

  unfoldable pub observe_all :
      ℕ → List (ℕ × RingBuffer Float) → ℕ → List Float → List (ℕ × RingBuffer Float)
  observe_all window history i [] = history
  observe_all window history i (load ∷ loads) =
      observe_all window (observe window history i load) (i + 1) loads

  unfoldable pub update :
      (List (ℕ × RingBuffer Float) → List (ℕ × RingBuffer Float))
      → LoadPredictor
      → List Float
      → LoadPredictor
  update visit lp loads =
      predict visit (record lp { history = observe_all lp.window lp.history 0 loads })

  unfoldable pub first_prediction : PartitionPrediction → Float
  first_prediction p = elim p.predicted [ [] ↦ p.current | x ∷ xs ↦ x ]

  unfoldable pub predict_all : LoadPredictor → List Float
  predict_all lp = map first_prediction lp.predictions

  unfoldable pub forget : ℕ → List (ℕ × RingBuffer Float) → List (ℕ × RingBuffer Float)
  forget i [] = []
  forget i ((j, buf) ∷ rest) = if j == i then forget i rest else (j, buf) ∷ forget i rest

  unfoldable pub remove_partition : LoadPredictor → ℕ → LoadPredictor
  remove_partition lp i = record lp { history = forget i lp.history }
