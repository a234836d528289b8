-- ===== src/Broker/Ticks.antt =====
-- What the three background loops do at a tick, and what `Stop` leaves.
use nya_queue.Prelude.{
  ℕ, ◌*◌, ◌/◌, ◌&&◌, Option, none, some, List, [], ◌∷◌, ◌++◌, map, ltb, leb, if◌then◌else◌, length,
  take,
}
use nya_queue.Prelude.Int.{pos, pos_part, ltb_ℤ, ◌-ℤ◌}
use nya_queue.Prelude.Words.{signed64, add64}
use nya_queue.EntryRing.{Time}
use nya_queue.Backpressure
use nya_queue.Backpressure.{Controller}
use nya_queue.Partition
use nya_queue.Partition.{Partition}
use nya_queue.Partition.Retention.{truncate_front, truncate_before, truncate_oldest_until_size}
use nya_queue.OffsetStore
use nya_queue.OffsetStore.{Key, OffsetStore}
use nya_queue.Config.{Config, eq_ℤ}
use nya_queue.LoadPredictor
use nya_queue.LoadPredictor.{RingBuffer}
use nya_queue.Metrics
use nya_queue.Metrics.{Metrics, Collector}
use nya_queue.Topic
use nya_queue.Topic.{Topic}
use nya_queue.Broker.{Parts, Broker, Float}

module _ (x : Parts) where
  open x use {wal, floats}

  -- The counters after a removal: an error or nothing removed is not recorded.
  unfoldable pub record_removal :
      Collector floats x.statistics → Partition.Result (ℕ × ℕ) → Collector floats x.statistics
  record_removal mc (Partition.err e) = mc
  record_removal mc (Partition.ok (n, bytes)) =
      if ltb 0 n then record mc { counts = Metrics.record_retention mc.counts n bytes } else mc

  -- The three rules, for one partition. `now` is the reading of the clock.
  unfoldable pub retain_age :
      Config
      → Time
      → Partition wal.Log
      → Collector floats x.statistics
      → Partition wal.Log × Collector floats x.statistics
  unfolding record_removal
  retain_age cfg now p mc =
      let (out, p') = truncate_before wal p (now -ℤ cfg.retention_max_age) in
      if ltb_ℤ (pos 0) cfg.retention_max_age then (p', record_removal mc out) else (p, mc)

  unfoldable pub retain_bytes :
      Config
      → Partition wal.Log
      → Collector floats x.statistics
      → Partition wal.Log × Collector floats x.statistics
  unfolding record_removal
  retain_bytes cfg p mc =
      let (out, p') = truncate_oldest_until_size wal p cfg.retention_max_bytes in
      if ltb_ℤ (pos 0) cfg.retention_max_bytes then (p', record_removal mc out) else (p, mc)

  -- The floor of the commits counts only when no other rule is set.
  unfoldable pub retain_floor :
      Config → Option (OffsetStore x.badger) → List ℕ → Partition wal.Log → Partition wal.Log
  retain_floor cfg offset_store name p = elim offset_store [
    | none ↦ p
    | some s ↦
        let floor = OffsetStore.commit_floor x.badger s name p.id in
        if eq_ℤ cfg.retention_max_age (pos 0)
          && eq_ℤ cfg.retention_max_bytes (pos 0)
          && ltb_ℤ (pos 1) (signed64 floor)
        then (truncate_front wal p floor).1
        else p
  ]

  unfoldable pub retain_partition :
      Config
      → Option (OffsetStore x.badger)
      → Time
      → List ℕ
      → Partition wal.Log
      → Collector floats x.statistics
      → Partition wal.Log × Collector floats x.statistics
  unfolding retain_age retain_bytes retain_floor
  retain_partition cfg offset_store now name p mc =
      let (aged, mc1) = retain_age cfg now p mc in
      let (cut, mc2) = retain_bytes cfg aged mc1 in (retain_floor cfg offset_store name cut, mc2)

  unfoldable pub retain_partitions :
      Config
      → Option (OffsetStore x.badger)
      → Time
      → List ℕ
      → List (Partition wal.Log)
      → Collector floats x.statistics
      → List (Partition wal.Log) × Collector floats x.statistics
  retain_partitions cfg offset_store now name [] mc = ([], mc)
  retain_partitions cfg offset_store now name (p ∷ ps) mc =
      let (p', mc1) = retain_partition cfg offset_store now name p mc in
      let (ps', mc2) = retain_partitions cfg offset_store now name ps mc1 in (p' ∷ ps', mc2)

  -- Topics that are closed are passed over.
  unfoldable pub retain_topics :
      Config
      → Option (OffsetStore x.badger)
      → Time
      → List (Key × Topic wal (Float x))
      → Collector floats x.statistics
      → List (Key × Topic wal (Float x)) × Collector floats x.statistics
  retain_topics cfg offset_store now [] mc = ([], mc)
  retain_topics cfg offset_store now ((k, t) ∷ rest) mc =
      let (ps, mc1) = retain_partitions cfg offset_store now t.name t.partitions mc in
      let kept : Topic wal (Float x) = if t.is_closed then t else record t { partitions = ps } in
      let mc' = if t.is_closed then mc else mc1 in
      let (rest', mc2) = retain_topics cfg offset_store now rest mc' in ((k, kept) ∷ rest', mc2)

  unfoldable pub retention_tick : Broker x → Time → Broker x
  retention_tick b now =
      let (topics, mc) = retain_topics b.config b.offset_store now b.topics b.collector in
      record b { topics = topics; collector = mc }

  unfoldable pub session_timeout_tick : Broker x → Time → Broker x
  session_timeout_tick b now =
      let timeout_ms = b.config.consumer_session_timeout_ms in
      elim b.offset_store [
        | none ↦ b
        | some s ↦
            if ltb_ℤ (pos 0) timeout_ms
            then record b {
              offset_store = some (
                  OffsetStore.expire_sessions x.badger s now
                    (pos (pos_part timeout_ms * 1_000_000)));
            }
            else b
      ]

  unfoldable pub all_partitions : List (Key × Topic wal (Float x)) → List (Partition wal.Log)
  all_partitions [] = []
  all_partitions ((k, t) ∷ rest) = t.partitions ++ all_partitions rest

  -- The largest flush time, and the sum of all.
  unfoldable pub flush_times : List (Partition wal.Log) → ℕ × ℕ → ℕ × ℕ
  flush_times [] acc = acc
  flush_times (p ∷ ps) (most, sum) =
      let ns = p.last_flush_ns in
      flush_times ps (if ltb_ℤ (signed64 most) (signed64 ns) then ns else most, add64 sum ns)

  unfoldable pub sum_of : Float x → List (Float x) → Float x
  sum_of total [] = total
  sum_of total (v ∷ vs) = sum_of (floats.plus total v) vs

  unfoldable pub average : List (Float x) → Float x
  unfolding sum_of
  average [] = floats.of_int 0
  average (v ∷ vs) =
      floats.divide (sum_of (floats.of_int 0) (v ∷ vs)) (floats.of_int (length (v ∷ vs)))

  -- What the backpressure is told: the predictions, their average and the largest flush time.
  unfoldable pub inform :
      Controller floats → List (Float x) → List (Partition wal.Log) → Controller floats
  unfolding average flush_times
  inform bp predicted ps =
      let (most, sum) = flush_times ps (0, 0) in
      Backpressure.update_system floats (Backpressure.update_predictions floats bp predicted)
        (record {
          avg_predicted_load = average predicted;
          wal_flush_latency_ms = floats.divide (floats.of_int most) x.statistics.ns_per_ms;
        })

  -- `visit` is the order of the predictor's map, `seconds` the time since the last tick, and the
  -- balancer says what it dropped and evicted. The average flush time is not negative.
  unfoldable pub metrics_tick :
      (List (ℕ × RingBuffer (Float x)) → List (ℕ × RingBuffer (Float x)))
      → Float x
      → ℕ
      → ℕ
      → Broker x
      → Broker x
  unfolding all_partitions inform flush_times
  metrics_tick visit seconds dropped evictions b =
      let ps = all_partitions b.topics in
      let (fresh, mc) =
        Metrics.collect floats x.statistics seconds (map (λ (p : Partition wal.Log). p.id) ps)
          b.backpressure dropped evictions b.collector in
      let predictor = LoadPredictor.update floats x.roots visit b.predictor fresh.partition_loads in
      let with_loads = ltb 0 (length fresh.partition_loads) in
      let snap : Metrics floats x.statistics =
        if with_loads
        then record fresh { predicted_loads = LoadPredictor.predict_all floats x.roots predictor }
        else fresh in
      let told = x.on_metrics b.balancer snap in
      let history =
        Metrics.remember floats x.statistics 100 mc.throughput_history snap.throughput in
      let base = take (length history * 4 / 5) history in
      let (most, sum) = flush_times ps (0, 0) in
      let counts = mc.counts in
      let timed : Metrics.Counts = elim b.backpressure [
        | none ↦ counts
        | some bp ↦
            if ltb 0 (length ps)
            then record counts { avg_flush_latency_ns = sum / length ps }
            else counts
      ] in
      record b {
        collector = record mc { counts = timed; throughput_history = history };
        last_snap = some snap;
        predictor = if with_loads then predictor else b.predictor;
        backpressure = elim b.backpressure [
          | none ↦ none
          | some bp ↦ some (inform bp snap.predicted_loads ps)
        ];
        balancer =
            if leb 50 (length history)
            then x.set_base_throughput told
                (floats.divide (sum_of (floats.of_int 0) base) (floats.of_int (length base)))
            else told;
      }

  -- `Stop`: every scheduler is stopped and every topic closed.
  unfoldable pub close_topics : List (Key × Topic wal (Float x)) → List (Key × Topic wal (Float x))
  close_topics [] = []
  close_topics ((k, t) ∷ rest) =
      (k, (Topic.close wal (Float x) x.close_log t).1) ∷ close_topics rest

  unfoldable pub stop : Broker x → Broker x
  unfolding close_topics
  stop b = record b { schedulers = []; topics = close_topics b.topics }
