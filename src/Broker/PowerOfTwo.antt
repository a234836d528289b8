-- ===== src/Broker/PowerOfTwo.antt =====
-- The broker with the balancer of pkg/balancer/p2c.go, and the law of balancers that it meets.
use nya_queue.Prelude.{
  ℕ, ◌+◌, ◌-◌, max, ◌%◌, ◌≤◌, ◌<◌, ◌≡◌, ap, ◌∙◌, Option, none, some, List, arith, length, get_or,
  set, length-set,
}
use nya_queue.Prelude.Words.{mod64, add64, sub64}
use nya_queue.Balancer.P2c
use nya_queue.Balancer.P2c.{PowerOfTwoChoices, select_partition, on_publish_complete}
use nya_queue.Balancer.P2c.Inflight.{
  IsWithin, select_partition-inflight, on_publish_complete-inflight, select_partition-lt, one_count,
}
use nya_queue.Broker.{Parts}
use nya_queue.Broker.Publish.Refusals.{Tracks}
use native.Mathlib.Nat.{mod-lt}

-- `draw` is the sequence of random numbers; a state is the balancer and how many were drawn.
abbrev pub with_p2c : Parts → (ℕ → ℕ) → Parts
with_p2c x draw = record x {
  BalancerState = PowerOfTwoChoices x.floats × ℕ;
  select_partition = λ s topic key n.
      let (part, p) =
        P2c.select_partition x.floats s.0 n (draw s.1 % max n 1) (draw (s.1 + 1) % max (n - 1) 1)
          (draw (s.1 + 2) % 2) in
      (part, (p, s.1 + 3));
  on_publish_complete = λ s part. (P2c.on_publish_complete x.floats s.0 part, s.1);
  on_metrics = λ s m. (P2c.on_metrics x.floats s.0 m.partition_loads m.queue_depth, s.1);
  set_base_throughput = λ s v. s;
}

module _ (x : Parts) (draw : ℕ → ℕ) where
  -- There are counters, for `n` partitions at least.
  abbrev pub HasCounters : PowerOfTwoChoices x.floats × ℕ → ℕ → Type 0
  HasCounters s n = (xs : List ℕ) × (s.0.inflight ≡ some xs) × (n ≤ length xs) × (0 < length xs)

  abbrev counter : Option (List ℕ) → ℕ → ℕ
  counter none i = 0
  counter (some xs) i = get_or xs i 0 % mod64

  abbrev pub in_flight : PowerOfTwoChoices x.floats × ℕ → ℕ → ℕ
  in_flight s i = counter s.0.inflight i

  counter-word : (o : Option (List ℕ)) (i : ℕ) → counter o i < mod64
  counter-word none i = omega arith
  counter-word (some xs) i = omega arith

  lt_within :
      (p : PowerOfTwoChoices x.floats) (n a b coin len : ℕ)
      → 0 < len
      → n ≤ len
      → a < max n 1
      → b < max (n - 1) 1
      → (P2c.select_partition x.floats p n a b coin).0 < len
  unfolding IsWithin
  lt_within p n a b coin len positive le ha hb =
      select_partition-lt x.floats p n a b coin len positive (le, ha, hb)

  pub with_p2c-Tracks : Tracks (with_p2c x draw) HasCounters in_flight
  with_p2c-Tracks = record {
    is_word = λ s i. counter-word s.0.inflight i;
    selects = λ s topic key n some_partition (xs, e, enough, positive).
        let a = draw s.1 % max n 1 in
        let b = draw (s.1 + 1) % max (n - 1) 1 in
        let coin = draw (s.1 + 2) % 2 in
        let chosen = (P2c.select_partition x.floats s.0 n a b coin).0 in
        let drawn : (a < max n 1) × (b < max (n - 1) 1) =
          (mod-lt (draw s.1) (omega arith), mod-lt (draw (s.1 + 1)) (omega arith)) in
        let counted = select_partition-inflight x.floats s.0 xs n a b coin e positive enough in
        let same = length-set xs chosen (add64 (get_or xs chosen 0) 1) in
        let lt = lt_within s.0 n a b coin n some_partition (omega arith) drawn.0 drawn.1 in
        (
          lt,
          (
            set xs chosen (add64 (get_or xs chosen 0) 1),
            counted,
            omega (arith, same, enough),
            omega (arith, same, positive),
          ),
          λ i.
              ap (λ o. counter o i) counted
              ∙ (one_count x.floats xs i chosen (omega (arith, lt, enough))).0
              ∙ omega (arith, ap (λ o. counter o i) e),
        );
    completes = λ s part n lt (xs, e, enough, positive).
        let counted =
          on_publish_complete-inflight x.floats s.0 xs part e (omega (arith, lt, enough)) in
        let same = length-set xs part (sub64 (get_or xs part 0) 1) in
        (
          (
            set xs part (sub64 (get_or xs part 0) 1),
            counted,
            omega (arith, same, enough),
            omega (arith, same, positive),
          ),
          λ i. omega (
            arith,
            ap (λ o. counter o i) counted,
            (one_count x.floats xs i part (omega (arith, lt, enough))).1,
            ap (λ o. counter o i) e,
          ),
        );
  }
