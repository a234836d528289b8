-- ===== src/Balancer/P2c/Choice.antt =====
-- Which partition `PowerOfTwoChoices` selects.
use nya_queue.Prelude.{
  ℕ, ◌-◌, ◌≤◌, ◌<◌, ◌≡◌, ◌≢◌, ◌⊎◌, inl, inr, sym, ap, ◌∙◌, Bool-cases, true, false, arith, ◌==◌,
  length, length-replicate, Option-cases, subst,
}
use nya_queue.Balancer.{Floats}
use nya_queue.Balancer.P2c.{
  PowerOfTwoChoices, ensure_inflight, score, second, choose, count_up, select_partition,
}

-- Of two floats at most one is less than the other.
abbrev pub IsAsymmetric : Floats → Type 0
IsAsymmetric f = (x y : f.Float) → f.less x y ≡ true → f.less y x ≡ false

second-lem : (a b n : ℕ) → a < n → b < n - 1 → (second a b < n) × (second a b ≢ a)
unfolding second
second-lem a b n ha hb = (ground (arith, ha, hb), λ e. ground (arith, ha, hb, e))

module _ (f : Floats) where
  -- A partition is chosen that is one of the two, and the other has no lower score.
  abbrev pub IsBetter : f.Float → f.Float → ℕ → ℕ → ℕ → Type 0
  IsBetter sa sb a b chosen =
      ((chosen ≡ a) × (f.less sb sa ≡ false)) ⊎ ((chosen ≡ b) × (f.less sa sb ≡ false))

  choose-IsBetter :
      (sa sb : f.Float) (a b coin : ℕ)
      → IsAsymmetric f
      → IsBetter sa sb a b (choose f sa sb a b coin)
  unfolding choose
  choose-IsBetter sa sb a b coin asym = elim (Bool-cases (f.less sa sb)) [
    | inl below ↦ inl (ground (arith, below), asym sa sb below)
    | inr level ↦ elim (Bool-cases (f.less sb sa)) [
      | inl above ↦ inr (ground (arith, level, above), level)
      | inr same ↦ elim (Bool-cases (coin == 0)) [
        | inl heads ↦ inl (ground (arith, level, same, heads), same)
        | inr tails ↦ inr (ground (arith, level, same, tails), level)
      ]
    ]
  ]

  pub length-ensure_inflight :
      (p : PowerOfTwoChoices f) (n : ℕ) → n ≤ length (ensure_inflight f p n)
  unfolding ensure_inflight
  length-ensure_inflight p n = elim (Option-cases p.inflight) [
    | inl e ↦ ground (arith, e, length-replicate {A = ℕ} n 0)
    | inr (xs, e) ↦ ground (arith, e, length-replicate {A = ℕ} n 0)
  ]

  pub select_partition-many :
      (p : PowerOfTwoChoices f) (n a b coin : ℕ)
      → 1 < n
      → let xs = ensure_inflight f p n in
        let chosen = choose f (score f p a xs) (score f p (second a b) xs) a (second a b) coin in
        select_partition f p n a b coin ≡ (chosen, count_up f p xs chosen)
  unfolding select_partition
  select_partition-many p n a b coin many = ground (arith, many)

  -- Let there be at least two partitions, `a` a draw among them and `b` one among the others, and let
  -- of two floats at most one be less than the other. Then `SelectPartition` of `PowerOfTwoChoices`
  -- compares two different partitions, chooses one of them whose score is not above that of the
  -- other, by the counters as they were, and counts that one up, in counters for all partitions.
  pub select_partition-IsBetter :
      (p : PowerOfTwoChoices f) (n a b coin : ℕ)
      → IsAsymmetric f
      → 1 < n
      → a < n
      → b < n - 1
      → let (chosen, q) = select_partition f p n a b coin in
        let xs = ensure_inflight f p n in
        (second a b < n)
        × (second a b ≢ a)
        × IsBetter (score f p a xs) (score f p (second a b) xs) a (second a b) chosen
        × (q ≡ count_up f p xs chosen)
        × (n ≤ length xs)
  select_partition-IsBetter p n a b coin asym many ha hb =
      let xs = ensure_inflight f p n in
      let other = second-lem a b n ha hb in
      let same = select_partition-many p n a b coin many in
      (
        other.0,
        other.1,
        subst
            (λ (r : ℕ × PowerOfTwoChoices f).
              IsBetter (score f p a xs) (score f p (second a b) xs) a (second a b) r.0)
            (sym same)
            (choose-IsBetter (score f p a xs) (score f p (second a b) xs) a (second a b) coin asym),
        ap (λ r. r.1) same ∙ sym (ap (λ r. count_up f p xs r.0) same),
        length-ensure_inflight p n,
      )
