-- ===== src/Metrics.antt =====
-- pkg/broker/metrics.go: the counters of the broker and the snapshots made of them. The gauges of
-- Prometheus, the floats and the statistics of gonum are not modelled here: the first are left out,
-- the others are parameters. A counter is an int64, by its bit pattern.
pub mod Counters
mod Tests
use nya_queue.Prelude.{
  ℕ, zero, suc, ◌+◌, ◌-◌, ◌<◌, Bool, true, false, Option, none, some, List, [], ◌∷◌, ◌++◌, map, ltb,
  leb, ◌==◌, if◌then◌else◌, length, get_or, set, drop, replicate,
}
use nya_queue.Prelude.Int.{ℤ, pos, pos_part, ltb_ℤ, ◌-ℤ◌}
use nya_queue.Prelude.Words.{add64, sub64, signed64}
use nya_queue.Balancer.{Floats}
use nya_queue.Backpressure.{Controller}

-- 0.001, 1.0 and the number of nanoseconds of a millisecond, and what is used of gonum/stat.
pub record Statistics (f : Floats) : Type 0 where
  pub milli : f.Float
  pub one : f.Float
  pub ns_per_ms : f.Float
  pub std_dev : List f.Float → f.Float
  pub mean : List f.Float → f.Float

-- The counters of the partitions are indexed by the partition's number, whatever its topic.
pub record Counts : Type 0 where
  pub produce_count : ℕ
  pub consume_count : ℕ
  pub produce_bytes : ℕ
  pub part_produces : List ℕ
  pub part_consumes : List ℕ
  pub prev_part_produces : List ℕ
  pub prev_part_consumes : List ℕ
  pub avg_flush_latency_ns : ℕ
  pub retention_deleted_bytes : ℕ
  pub retention_deleted_segments : ℕ

abbrev pub no_counts : Counts
no_counts = record {
  produce_count = 0;
  consume_count = 0;
  produce_bytes = 0;
  part_produces = [];
  part_consumes = [];
  prev_part_produces = [];
  prev_part_consumes = [];
  avg_flush_latency_ns = 0;
  retention_deleted_bytes = 0;
  retention_deleted_segments = 0;
}

-- `xs` with zeros behind it, up to a length.
unfoldable pub padded : List ℕ → ℕ → List ℕ
padded xs n = xs ++ replicate (n - length xs) 0

unfoldable pub ensure_part_counters : Counts → ℕ → Counts
unfolding padded
ensure_part_counters c min_len = record c {
  part_produces = padded c.part_produces min_len;
  part_consumes = c.part_consumes ++ replicate (min_len - length c.part_produces) 0;
}

unfoldable pub add_at : List ℕ → ℕ → ℕ → List ℕ
add_at xs i n = set xs i (add64 (get_or xs i 0) n)

unfoldable pub record_produce_batch : Counts → ℕ → ℕ → Counts
unfolding ensure_part_counters add_at
record_produce_batch c partition n =
    let grown = ensure_part_counters c (partition + 1) in
    record grown {
      produce_count = add64 c.produce_count n;
      part_produces = add_at grown.part_produces partition n;
    }

unfoldable pub record_produce : Counts → ℕ → Counts
unfolding ensure_part_counters add_at
record_produce c partition =
    let grown = ensure_part_counters c (partition + 1) in
    record grown {
      produce_count = add64 c.produce_count 1;
      part_produces = add_at grown.part_produces partition 1;
    }

unfoldable pub record_produce_with_size : Counts → ℕ → ℕ → Counts
unfolding ensure_part_counters add_at
record_produce_with_size c partition msg_bytes =
    let grown = ensure_part_counters c (partition + 1) in
    record grown {
      produce_count = add64 c.produce_count 1;
      produce_bytes = add64 c.produce_bytes msg_bytes;
      part_produces = add_at grown.part_produces partition 1;
    }

unfoldable pub record_consume : Counts → ℕ → Counts
unfolding ensure_part_counters add_at
record_consume c partition =
    let grown = ensure_part_counters c (partition + 1) in
    record grown {
      consume_count = add64 c.consume_count 1;
      part_consumes = add_at grown.part_consumes partition 1;
    }

unfoldable pub record_retention : Counts → ℕ → ℕ → Counts
record_retention c segments bytes = record c {
  retention_deleted_segments = add64 c.retention_deleted_segments segments;
  retention_deleted_bytes = add64 c.retention_deleted_bytes bytes;
}

-- Counters that are not among the first `n` stay.
unfoldable pub save_prev_counters : Counts → Counts
save_prev_counters c =
    let n = length c.part_produces in
    let fresh = ltb (length c.prev_part_produces) n in
    record c {
      prev_part_produces =
          if fresh then c.part_produces else c.part_produces ++ drop n c.prev_part_produces;
      prev_part_consumes =
          if fresh then c.part_consumes else c.part_consumes ++ drop n c.prev_part_consumes;
    }

unfoldable pub remove_partition : Counts → ℕ → Counts
remove_partition c i =
    let known = ltb i (length c.part_produces) in
    let known_before = ltb i (length c.prev_part_produces) in
    record c {
      part_produces = if known then set c.part_produces i 0 else c.part_produces;
      part_consumes = if known then set c.part_consumes i 0 else c.part_consumes;
      prev_part_produces =
          if known_before then set c.prev_part_produces i 0 else c.prev_part_produces;
      prev_part_consumes =
          if known_before then set c.prev_part_consumes i 0 else c.prev_part_consumes;
    }

-- `pending`, which is not negative.
unfoldable pub depth_of : Counts → ℕ → ℕ
depth_of c i =
    if ltb i (length c.part_produces)
    then pos_part (signed64 (sub64 (get_or c.part_produces i 0) (get_or c.part_consumes i 0)))
    else 0

module _ (f : Floats) (s : Statistics f) where
  open f use {Float, of_int, plus, minus, times, divide, less}

  unfoldable pub load_of : Counts → ℕ → Float
  load_of c i =
      let known = ltb i (length c.part_produces) in
      let known_before = ltb i (length c.prev_part_produces) in
      let produces = if known then get_or c.part_produces i 0 else 0 in
      let consumes = if known then get_or c.part_consumes i 0 else 0 in
      let prev_prod = if known_before then get_or c.prev_part_produces i 0 else 0 in
      let prev_cons = if known_before then get_or c.prev_part_consumes i 0 else 0 in
      let delta_prod = sub64 produces prev_prod in
      let delta_cons = sub64 consumes prev_cons in
      if ltb_ℤ (pos 0) (signed64 delta_prod)
      then divide (of_int (pos_part (signed64 (sub64 delta_prod delta_cons)))) (of_int delta_prod)
      else of_int 0

  -- `retention_deleted_…` and the counters are in `counts`; `load_std_dev_history` is kept beside.
  pub record Collector : Type 0 where
    pub counts : Counts
    pub throughput_history : List Float
    pub load_std_dev_history : List Float

  pub record Metrics : Type 0 where
    pub throughput : Float
    pub consume_rate : Float
    pub avg_latency : Float
    pub delivery_ratio : Float
    pub msg_rate : Float
    pub avg_msg_size : Float
    pub partition_loads : List Float
    pub predicted_loads : List Float
    pub queue_depth : List ℕ
    pub load_std_dev : Float
    pub backpressure_closed_count : ℕ
    pub backpressure_warn_count : ℕ
    pub backpressure_open_count : ℕ
    pub balancer_dropped_exp : ℕ
    pub balancer_evictions : ℕ

  -- The history with one value more, of which there are 100 at most.
  unfoldable pub remember : ℕ → List Float → Float → List Float
  remember cap history x =
      let longer = history ++ (x ∷ []) in if ltb cap (length longer) then drop 1 longer else longer

  unfoldable pub ratio : Float → ℕ → ℕ → Float
  ratio otherwise n d = if ltb 0 d then divide (of_int n) (of_int d) else otherwise

  -- `seconds` is the time since the last call, `ids` are the numbers of the partitions of all topics
  -- in the order of the loop, and `dropped` and `evictions` are what the balancer says of itself.
  unfoldable pub collect :
      Float → List ℕ → Option (Controller f) → ℕ → ℕ → Collector → Metrics × Collector
  collect seconds ids bp dropped evictions mc =
      let c = mc.counts in
      let elapsed = if less seconds s.milli then s.milli else seconds in
      let produced = c.produce_count in
      let consumed = c.consume_count in
      let loads = map (load_of c) ids in
      let enough = leb 2 (length loads) in
      let history = remember 100 mc.load_std_dev_history (s.std_dev loads) in
      let delivered = ratio s.one consumed produced in
      (
        record {
          throughput = divide (of_int (add64 produced consumed)) elapsed;
          consume_rate = divide (of_int consumed) elapsed;
          avg_latency = divide (of_int c.avg_flush_latency_ns) s.ns_per_ms;
          delivery_ratio = if less s.one delivered then s.one else delivered;
          msg_rate = divide (of_int produced) elapsed;
          avg_msg_size = ratio (of_int 0) c.produce_bytes produced;
          partition_loads = loads;
          predicted_loads = [];
          queue_depth = map (depth_of c) ids;
          load_std_dev = if enough then s.mean history else of_int 0;
          backpressure_closed_count = elim bp [ none ↦ 0 | some b ↦ b.closed_count ];
          backpressure_warn_count = elim bp [ none ↦ 0 | some b ↦ b.warn_count ];
          backpressure_open_count = elim bp [ none ↦ 0 | some b ↦ b.open_count ];
          balancer_dropped_exp = dropped;
          balancer_evictions = evictions;
        },
        record mc {
          counts = record (save_prev_counters c) {
            produce_count = 0;
            consume_count = 0;
            produce_bytes = 0;
          };
          load_std_dev_history = if enough then history else mc.load_std_dev_history;
        },
      )
