-- ===== src/Balancer/Tests.antt =====
-- The theorems on balancers, with natural numbers for floats.
use nya_queue.Prelude.{
  ℕ, ◌+◌, ◌*◌, ◌-◌, ◌/◌, ◌%◌, ◌<◌, ◌≤◌, ◌≡◌, ◌≢◌, refl, none, some, List, [], ◌∷◌, ltb, leb, arith,
  get_elem?, get_or, length, All,
}
use nya_queue.Prelude.Int.{pos}
use nya_queue.Prelude.Words.{mod64}
use nya_queue.Balancer.{Floats}
use nya_queue.Balancer.RoundRobin
use nya_queue.Balancer.RoundRobin.{RoundRobin}
use nya_queue.Balancer.RoundRobin.Rotation.{choices, choices-each_once}
use nya_queue.Balancer.P2c
use nya_queue.Balancer.P2c.{
  PowerOfTwoChoices, ensure_inflight, score, add_term, second, choose, count_up,
  on_publish_complete,
}
use nya_queue.Balancer.P2c.Choice.{IsAsymmetric, IsBetter, select_partition-IsBetter}
use nya_queue.Balancer.P2c.Inflight.{
  Call, select, complete, after, selected, completed, IsWithin, after-counts, grown-forgets,
}

abbrev naturals : Floats
naturals = record {
  Float = ℕ;
  of_int = λ n. n;
  plus = λ x y. x + y;
  minus = λ x y. x - y;
  times = λ x y. x * y;
  divide = λ x y. x / y;
  less = ltb;
  less_equal = leb;
}

abbrev turning : RoundRobin naturals
turning = record { counter = 6; loads = none; threshold = 90; budget = pos 2 }

choices-each_once_example :
    (k : ℕ) × (k < 4)
    × (get_elem? (choices naturals turning 4 4) k ≡ some 1)
    × ((j : ℕ) → j < 4 → get_elem? (choices naturals turning 4 4) j ≡ some 1 → j ≡ k)
choices-each_once_example = choices-each_once naturals turning 4 1 refl (omega arith) (omega arith)

-- Partitions 3 and 0 are loaded.
abbrev loaded : RoundRobin naturals
loaded = record {
  counter = 6;
  loads = some (95 ∷ 10 ∷ 20 ∷ 99 ∷ []);
  threshold = 90;
  budget = pos 2;
}

passes_two : (RoundRobin.select_partition naturals loaded 4).0 ≡ 1
unfolding RoundRobin.select_partition RoundRobin.skip_loaded RoundRobin.is_loaded
passes_two = refl

abbrev balancer : PowerOfTwoChoices naturals
balancer = record {
  load_ewma = some (5 ∷ 2 ∷ 7 ∷ []);
  depth_norm = none;
  inflight = some (1 ∷ 0 ∷ 0 ∷ []);
  alpha = 0;
  load_weight = 1;
  depth_weight = 1;
  inflight_weight = 2;
}

naturals-IsAsymmetric : IsAsymmetric naturals
naturals-IsAsymmetric x y e = ground (arith, e)

select_partition-IsBetter_example :
    let (chosen, q) = P2c.select_partition naturals balancer 3 0 1 0 in
    let xs = ensure_inflight naturals balancer 3 in
    (second 0 1 < 3)
    × (second 0 1 ≢ 0)
    × IsBetter naturals
        (score naturals balancer 0 xs)
        (score naturals balancer (second 0 1) xs)
        0
        (second 0 1)
        chosen
    × (q ≡ count_up naturals balancer xs chosen)
    × (3 ≤ length xs)
select_partition-IsBetter_example =
    select_partition-IsBetter naturals balancer 3 0 1 0 naturals-IsAsymmetric (omega arith)
      (omega arith) (omega arith)

abbrev traffic : List Call
traffic = select 3 0 0 0 ∷ complete 0 ∷ select 2 1 0 1 ∷ []

traffic-IsWithin : All (IsWithin 3) traffic
unfolding IsWithin
traffic-IsWithin = (
  (omega arith, omega arith, omega arith),
  (omega arith, ((omega arith, omega arith, omega arith), tt)),
)

after-counts_example :
    (ys : List ℕ) × ((after naturals balancer traffic).inflight ≡ some ys)
    × (length ys ≡ 3)
    × ((get_or ys 1 0 + completed 1 traffic) % mod64
        ≡ (0 + selected naturals 1 balancer traffic) % mod64)
after-counts_example =
    after-counts naturals traffic balancer (1 ∷ 0 ∷ 0 ∷ []) 1 refl (omega arith) traffic-IsWithin

not_chosen : 0 ≢ (P2c.select_partition naturals balancer 4 1 1 0).0
unfolding P2c.select_partition ensure_inflight score add_term second choose
not_chosen = λ e. ground (arith, e)

grown-forgets_example :
    (ys : List ℕ) × ((on_publish_complete naturals
        (P2c.select_partition naturals balancer 4 1 1 0).1
        0).inflight
      ≡ some ys)
    × (get_or ys 0 0 ≡ mod64 - 1)
grown-forgets_example =
    grown-forgets naturals balancer (1 ∷ 0 ∷ 0 ∷ []) 4 1 1 0 0 refl (omega arith) (omega arith)
      (omega arith) (omega arith) (omega arith) not_chosen
