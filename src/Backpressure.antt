-- ===== src/Backpressure.antt =====
-- pkg/broker/backpressure.go: whether producers are throttled. Floats are a parameter; the warning
-- threshold, which is a product of floats, and the latency limit are computed with it.
pub mod Verdict
mod Tests
use nya_queue.Prelude.{ℕ, Option, none, some, List, length, ltb, get_or, if◌then◌else◌, not}
use nya_queue.Prelude.Words.{add64}
use nya_queue.Balancer.{Floats}

pub data State : Type 0 where
  open_ warn closed : State

module _ (f : Floats) where
  open f use {Float, of_int, times, less, less_equal}

  pub record SystemSignal : Type 0 where
    pub avg_predicted_load : Float
    pub wal_flush_latency_ms : Float

  -- The constants of pkg/broker/const.go.
  pub record Limits : Type 0 where
    pub default_threshold : Float
    pub warn_ratio : Float
    pub flush_latency_warn_ms : Float

  pub record Controller : Type 0 where
    pub threshold : Float
    pub predicted : Option (List Float)
    pub system_signal : Option SystemSignal
    pub closed_count : ℕ
    pub warn_count : ℕ
    pub open_count : ℕ

  unfoldable pub new_controller : Limits → Float → Controller
  new_controller k threshold = record {
    threshold = if less_equal threshold (of_int 0) then k.default_threshold else threshold;
    predicted = none;
    system_signal = none;
    closed_count = 0;
    warn_count = 0;
    open_count = 0;
  }

  unfoldable pub update_predictions : Controller → List Float → Controller
  update_predictions bp predicted = record bp { predicted = some predicted }

  unfoldable pub update_system : Controller → SystemSignal → Controller
  update_system bp sig = record bp { system_signal = some sig }

  -- The verdict by the predicted loads alone.
  unfoldable pub evaluate_partition : Limits → Controller → ℕ → State
  evaluate_partition k bp partition_id = elim bp.predicted [
    | none ↦ open_
    | some loads ↦
        let load = get_or loads partition_id (of_int 0) in
        if not (ltb partition_id (length loads))
        then open_
        else if less bp.threshold load
        then closed
        else if less (times bp.threshold k.warn_ratio) load
        then warn
        else open_
  ]

  unfoldable pub evaluate : Limits → Controller → ℕ → State
  evaluate k bp partition_id = elim bp.system_signal [
    | none ↦ evaluate_partition k bp partition_id
    | some sig ↦
        if less bp.threshold sig.avg_predicted_load
        then closed
        else if less k.flush_latency_warn_ms sig.wal_flush_latency_ms
        then warn
        else evaluate_partition k bp partition_id
  ]

  unfoldable pub check : Limits → Controller → ℕ → State × Controller
  check k bp partition_id =
      let state = evaluate k bp partition_id in
      (
        state,
        elim state [
          | closed ↦ record bp { closed_count = add64 bp.closed_count 1 }
          | warn ↦ record bp { warn_count = add64 bp.warn_count 1 }
          | open_ ↦ record bp { open_count = add64 bp.open_count 1 }
        ],
      )
