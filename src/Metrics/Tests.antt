-- ===== src/Metrics/Tests.antt =====
-- The theorem on the counters at some events.
use nya_queue.Prelude.{◌≡◌, List, [], ◌∷◌, get_or, arith}
use nya_queue.Metrics.{no_counts, depth_of}
use nya_queue.Metrics.Counters.{
  Event, produced, produced_batch, consumed, recorded_all, made, taken, total, recorded_all-counts,
}

abbrev events : List Event
events = produced 1 ∷ produced_batch 0 5 ∷ consumed 1 ∷ produced 1 ∷ []

recorded_all-counts_example :
    let c = recorded_all no_counts events in
    (get_or c.part_produces 1 0 ≡ 2) × (get_or c.part_consumes 1 0 ≡ 1) × (depth_of c 1 ≡ 1)
unfolding made taken total
recorded_all-counts_example = recorded_all-counts events 1 (omega arith) (omega arith)
