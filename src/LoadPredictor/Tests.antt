-- ===== src/LoadPredictor/Tests.antt =====
-- The theorems on the predictor, with numbers for the floats.
use nya_queue.Prelude.{
  ℕ, ◌+◌, ◌-◌, ◌*◌, ◌/◌, ◌≡◌, ◌⊎◌, refl, suc, get_elem?, some, Bool-cases, inl, inr, ◌==◌, List, [],
  ◌∷◌, ◌++◌, arith, length, drop, replicate, All, ltb, leb,
}
use nya_queue.Balancer.{Floats, Compares}
use nya_queue.LoadPredictor.{
  PartitionPrediction, Roots, RingBuffer, new_ring_buffer, push, values, values_into, copy_into,
  ar_predict, mean_of, update, new_load_predictor, predict_all,
}
use nya_queue.LoadPredictor.Ring.{push_all, values-push_all}
use nya_queue.LoadPredictor.Forecast.{IsShare, ar_predict-IsForecast}
use nya_queue.LoadPredictor.Predictions.{VisitsAll, update_all-predicted}
use nya_queue.LoadPredictor.Histories.{backwards, find, update_all, loads_of, predict_all-misplaced}

abbrev numbers : Floats
numbers = record {
  Float = ℕ;
  of_int = λ n. n;
  plus = λ a b. a + b;
  minus = λ a b. a - b;
  times = λ a b. a * b;
  divide = λ a b. a / b;
  less = ltb;
  less_equal = leb;
}

abbrev roots : Roots numbers
roots = record { root = λ n. n / 2 + 1 - n / 4; one = 1; tiny = 0 }

numbers-Compares : Compares numbers
numbers-Compares = record {
  irreflexive = λ x. ground arith;
  transitive = λ x y z h k. ground (arith, h, k);
}

abbrev ring : RingBuffer ℕ
ring = push_all (new_ring_buffer 0 2) (5 ∷ 6 ∷ 7 ∷ [])

abbrev wide : List ℕ
wide = 1 ∷ 2 ∷ 3 ∷ []

values_runs : values {Float = ℕ} 0 ring ≡ 6 ∷ 7 ∷ []
unfolding values push_all push new_ring_buffer copy_into
values_runs = refl

values-push_all_example :
    (values {Float = ℕ} 0 ring ≡ 6 ∷ 7 ∷ [])
    × (values_into ring wide ≡ (2, values {Float = ℕ} 0 ring ++ (3 ∷ [])))
values-push_all_example =
    values-push_all {Float = ℕ} 0 2 (5 ∷ 6 ∷ 7 ∷ []) wide (omega arith) (omega arith)

ar_predict-IsForecast_example :
    let out = ar_predict numbers roots 8 (3 ∷ 1 ∷ 4 ∷ 1 ∷ []) 3 in
    (length out ≡ 3)
    × ((out ≡ replicate 3 (mean_of numbers roots (3 ∷ 1 ∷ 4 ∷ 1 ∷ [])))
        ⊎ All (IsShare numbers roots) out)
ar_predict-IsForecast_example =
    ar_predict-IsForecast numbers roots 8 (3 ∷ 1 ∷ 4 ∷ 1 ∷ []) 3 numbers-Compares refl

abbrev twice : List (List ℕ)
twice = (5 ∷ 6 ∷ []) ∷ (7 ∷ []) ∷ []

in_order : VisitsAll numbers roots (λ h. h)
unfolding find
in_order [] i buf e = absurd (ground (arith, e))
in_order ((j, other) ∷ rest) i buf e = elim (Bool-cases (j == i)) [
  | inl same ↦ (0, ground (arith, same, e))
  | inr ne ↦ let (k, at) = in_order rest i buf (ground (arith, ne, e)) in (suc k, at)
]

update_all-predicted_example :
    let lp = update_all numbers roots (λ h. h) (new_load_predictor numbers roots 4 3) twice in
    (k : ℕ) × (p : PartitionPrediction numbers roots) × (get_elem? lp.predictions k ≡ some p)
    × (p.partition_id ≡ 0)
    × (p.predicted
        ≡ ar_predict numbers roots 4
            (drop (length (loads_of numbers roots 0 twice) - 4) (loads_of numbers roots 0 twice))
            3)
unfolding loads_of
update_all-predicted_example =
    update_all-predicted numbers roots (λ h. h) twice 4 3 0 in_order (omega arith) (omega arith)

predict_all-misplaced_example :
    predict_all numbers roots
      (update numbers roots backwards (new_load_predictor numbers roots 8 3) (5 ∷ 9 ∷ []))
    ≡ mean_of numbers roots (9 ∷ []) ∷ mean_of numbers roots (5 ∷ []) ∷ []
predict_all-misplaced_example =
    predict_all-misplaced numbers roots 8 3 5 9 (omega arith) (omega arith) refl
