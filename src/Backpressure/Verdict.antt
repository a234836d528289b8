-- ===== src/Backpressure/Verdict.antt =====
-- The verdicts of `BackpressureController.Check`, and how they are counted.
use nya_queue.Prelude.{
  ℕ, ◌+◌, ◌%◌, ◌≤◌, ◌<◌, ◌≡◌, refl, ap, ap₂, map, ◌∙◌, Option-cases, inl, inr, true, List, [], ◌∷◌,
  arith, length, get_or,
}
use nya_queue.Prelude.Words.{mod64, add64}
use nya_queue.Balancer.{Floats}
use nya_queue.Backpressure.{
  State, open_, warn, closed, Limits, Controller, evaluate_partition, evaluate, check,
  update_predictions,
}

-- How severe a verdict is.
unfoldable pub severity : State → ℕ
severity open_ = 0
severity warn = 1
severity closed = 2

abbrev pub IsTransitive : Floats → Type 0
IsTransitive f = (x y z : f.Float) → f.less x y ≡ true → f.less y z ≡ true → f.less x z ≡ true

-- One, if two verdicts are the same.
unfoldable pub one_if : State → State → ℕ
one_if open_ open_ = 1
one_if open_ warn = 0
one_if open_ closed = 0
one_if warn open_ = 0
one_if warn warn = 1
one_if warn closed = 0
one_if closed open_ = 0
one_if closed warn = 0
one_if closed closed = 1

map-cong_lem : {g h : ℕ → State} → (is : List ℕ) → ((j : ℕ) → g j ≡ h j) → map g is ≡ map h is
map-cong_lem [] same = refl
map-cong_lem (i ∷ is) same = ap₂ ◌∷◌ (same i) (map-cong_lem is same)

-- How often a verdict stands in a list.
unfoldable pub occurrences : State → List State → ℕ
occurrences s [] = 0
occurrences s (x ∷ xs) = one_if s x + occurrences s xs

module _ (f : Floats) where
  -- Let the order of floats be transitive, and let a partition have a predicted load. If that
  -- rises, the verdict on the partition does not become milder, whatever the loads of the other
  -- partitions become, with or without a system signal.
  pub evaluate-severity :
      (k : Limits f) (bp : Controller f) (loads loads' : List f.Float) (i : ℕ)
      → IsTransitive f
      → i < length loads
      → i < length loads'
      → f.less (get_or loads i (f.of_int 0)) (get_or loads' i (f.of_int 0)) ≡ true
      → severity (evaluate f k (update_predictions f bp loads) i)
        ≤ severity (evaluate f k (update_predictions f bp loads') i)
  unfolding evaluate evaluate_partition update_predictions severity
  evaluate-severity k bp loads loads' i transitive lt lt' rises =
      elim (Option-cases bp.system_signal) [
        | inl e ↦ ground (
          arith,
          e,
          lt,
          lt',
          transitive bp.threshold (get_or loads i (f.of_int 0)) (get_or loads' i (f.of_int 0)),
          rises,
          transitive (f.times bp.threshold k.warn_ratio) (get_or loads i (f.of_int 0))
              (get_or loads' i (f.of_int 0)),
        )
        | inr (sig, e) ↦ ground (
          arith,
          e,
          lt,
          lt',
          transitive bp.threshold (get_or loads i (f.of_int 0)) (get_or loads' i (f.of_int 0)),
          rises,
          transitive (f.times bp.threshold k.warn_ratio) (get_or loads i (f.of_int 0))
              (get_or loads' i (f.of_int 0)),
        )
      ]

  check-verdict :
      (k : Limits f) (bp : Controller f) (i : ℕ) → (check f k bp i).0 ≡ evaluate f k bp i
  unfolding check
  check-verdict k bp i = refl

  -- A check leaves what the verdicts depend on.
  evaluate-check :
      (k : Limits f) (bp : Controller f) (i j : ℕ)
      → evaluate f k (check f k bp i).1 j ≡ evaluate f k bp j
  unfolding check evaluate evaluate_partition
  evaluate-check k bp i j = by_verdict (evaluate f k bp i)
    where
      by_verdict :
          (s : State)
          → evaluate f k
              (elim s [
                | closed ↦ record bp { closed_count = add64 bp.closed_count 1 }
                | warn ↦ record bp { warn_count = add64 bp.warn_count 1 }
                | open_ ↦ record bp { open_count = add64 bp.open_count 1 }
              ])
              j
            ≡ evaluate f k bp j
      by_verdict closed = refl
      by_verdict warn = refl
      by_verdict open_ = refl

  -- The verdicts of checks, one after another, and the controller behind them.
  unfoldable pub checks : Limits f → Controller f → List ℕ → List State × Controller f
  checks k bp [] = ([], bp)
  checks k bp (i ∷ is) =
      let (state, bp') = check f k bp i in
      let (states, end) = checks k bp' is in (state ∷ states, end)

  abbrev pub counter : State → Controller f → ℕ
  counter open_ bp = bp.open_count
  counter warn bp = bp.warn_count
  counter closed bp = bp.closed_count

  check-counter :
      (k : Limits f) (bp : Controller f) (i : ℕ) (s : State)
      → counter s (check f k bp i).1 % mod64 ≡ (counter s bp + one_if s (check f k bp i).0) % mod64
  unfolding check one_if
  check-counter k bp i open_ = ground arith
  check-counter k bp i warn = ground arith
  check-counter k bp i closed = ground arith

  -- In the course of any checks, each of the three counters goes up by the number of the verdicts
  -- that it counts, modulo 2 ^ 64, and there is one verdict for each check, which is what `evaluate`
  -- says of its partition by the loads and the signal as they were before the checks.
  pub checks-counters :
      (k : Limits f) (bp : Controller f) (is : List ℕ) (s : State)
      → let (states, end) = checks k bp is in
        (counter s end % mod64 ≡ (counter s bp + occurrences s states) % mod64)
        × (states ≡ map (evaluate f k bp) is)
  unfolding checks occurrences
  checks-counters k bp [] s = (ap (λ c. c % mod64) {y = counter s bp + 0} (omega arith), refl)
  checks-counters k bp (i ∷ is) s =
      let bp' = (check f k bp i).1 in
      let (counts, verdicts) = checks-counters k bp' is s in
      (
        omega (arith, counts, check-counter k bp i s),
        ap₂ ◌∷◌ (check-verdict k bp i) (verdicts ∙ map-cong_lem is (evaluate-check k bp i)),
      )
