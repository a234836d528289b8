-- ===== src/Backpressure/Tests.antt =====
-- The theorems on backpressure, with natural numbers for floats.
use nya_queue.Prelude.{ℕ, ◌+◌, ◌*◌, ◌-◌, ◌/◌, ◌≤◌, refl, some, [], ◌∷◌, ltb, leb, arith}
use nya_queue.Balancer.{Floats}
use nya_queue.Backpressure.{Limits, Controller, evaluate, update_predictions}
use nya_queue.Backpressure.Verdict.{severity, IsTransitive, evaluate-severity}

abbrev whole : Floats
whole = record {
  Float = ℕ;
  of_int = λ n. n;
  plus = λ x y. x + y;
  minus = λ x y. x - y;
  times = λ x y. x * y;
  divide = λ x y. x / y;
  less = ltb;
  less_equal = leb;
}

whole-IsTransitive : IsTransitive whole
whole-IsTransitive x y z a b = ground (arith, a, b)

abbrev limits : Limits whole
limits = record { default_threshold = 85; warn_ratio = 1; flush_latency_warn_ms = 100 }

abbrev controller : Controller whole
controller = record {
  threshold = 50;
  predicted = some (10 ∷ 60 ∷ []);
  system_signal = some (record { avg_predicted_load = 30; wal_flush_latency_ms = 5 });
  closed_count = 0;
  warn_count = 0;
  open_count = 0;
}

evaluate-severity_example :
    severity (evaluate whole limits (update_predictions whole controller (10 ∷ [])) 0)
    ≤ severity (evaluate whole limits (update_predictions whole controller (60 ∷ [])) 0)
evaluate-severity_example =
    evaluate-severity whole limits controller (10 ∷ []) (60 ∷ []) 0 whole-IsTransitive (omega arith)
      (omega arith) refl
