-- ===== src/Balancer/P2c/Inflight.antt =====
-- The in-flight counters of `PowerOfTwoChoices`.
use nya_queue.Prelude.{
  ℕ, zero, suc, ◌+◌, ◌-◌, max, ◌%◌, ◌≤◌, ◌<◌, ◌≡◌, ◌≢◌, refl, sym, ap, ◌∙◌, subst, some, List, [],
  ◌∷◌, arith, ◌==◌, if◌then◌else◌, length, get_or, set, replicate, length-set, length-replicate,
  get_or-set, get_or-set_self, get_or-set_ne, All,
}
use nya_queue.Prelude.Words.{mod64, add64, sub64}
use nya_queue.Balancer.{Floats}
use nya_queue.Balancer.P2c.{
  PowerOfTwoChoices, second, choose, ensure_inflight, count_up, select_partition,
  on_publish_complete,
}

-- A call: a selection with its draws, or the end of a publish to a partition.
pub data Call : Type 0 where
  select : ℕ → ℕ → ℕ → ℕ → Call
  complete : ℕ → Call

-- One, if two partitions are the same.
unfoldable pub one_if : ℕ → ℕ → ℕ
one_if i j = if i == j then 1 else 0

get_or-zeros : (n i : ℕ) → get_or {A = ℕ} (replicate n 0) i 0 ≡ 0
get_or-zeros zero i = refl
get_or-zeros (suc n) zero = refl
get_or-zeros (suc n) (suc i) = get_or-zeros n i

-- How often a partition is completed in calls.
unfoldable pub completed : ℕ → List Call → ℕ
completed i [] = 0
completed i (select n a b coin ∷ cs) = completed i cs
completed i (complete j ∷ cs) = one_if i j + completed i cs

-- The calls are about partitions that there are.
unfoldable pub IsWithin : ℕ → Call → Type 0
IsWithin len (select n a b coin) = (n ≤ len) × (a < max n 1) × (b < max (n - 1) 1)
IsWithin len (complete i) = i < len

module _ (f : Floats) where
  unfoldable pub after : PowerOfTwoChoices f → List Call → PowerOfTwoChoices f
  after p [] = p
  after p (select n a b coin ∷ cs) = after (select_partition f p n a b coin).1 cs
  after p (complete i ∷ cs) = after (on_publish_complete f p i) cs

  -- How often a partition is selected in the course of calls.
  unfoldable pub selected : ℕ → PowerOfTwoChoices f → List Call → ℕ
  selected i p [] = 0
  selected i p (select n a b coin ∷ cs) =
      let (chosen, q) = select_partition f p n a b coin in one_if i chosen + selected i q cs
  selected i p (complete j ∷ cs) = selected i (on_publish_complete f p j) cs

  -- A selection among the partitions there are counts up one counter.
  pub select_partition-inflight :
      (p : PowerOfTwoChoices f) (xs : List ℕ) (n a b coin : ℕ)
      → p.inflight ≡ some xs
      → 0 < length xs
      → n ≤ length xs
      → let (chosen, q) = select_partition f p n a b coin in
        q.inflight ≡ some (set xs chosen (add64 (get_or xs chosen 0) 1))
  unfolding select_partition count_up ensure_inflight
  select_partition-inflight p xs n a b coin e some_partition within =
      ground (arith, e, within, some_partition)

  pub on_publish_complete-inflight :
      (p : PowerOfTwoChoices f) (xs : List ℕ) (i : ℕ)
      → p.inflight ≡ some xs
      → i < length xs
      → (on_publish_complete f p i).inflight ≡ some (set xs i (sub64 (get_or xs i 0) 1))
  unfolding on_publish_complete
  on_publish_complete-inflight p xs i e lt = ground (arith, e, lt)

  pub select_partition-lt :
      (p : PowerOfTwoChoices f) (n a b coin len : ℕ)
      → 0 < len
      → IsWithin len (select n a b coin)
      → (select_partition f p n a b coin).0 < len
  unfolding select_partition IsWithin choose second
  select_partition-lt p n a b coin len some_partition (le, ha, hb) =
      ground (arith, some_partition, le, ha, hb)

  pub one_count :
      (xs : List ℕ) (i j : ℕ)
      → j < length xs
      → (get_or (set xs j (add64 (get_or xs j 0) 1)) i 0 % mod64
          ≡ (get_or xs i 0 + one_if i j) % mod64)
        × ((get_or (set xs j (sub64 (get_or xs j 0) 1)) i 0 + one_if i j) % mod64
            ≡ get_or xs i 0 % mod64)
  unfolding one_if
  one_count xs i j lt = (
    ground (arith, get_or-set xs j i (add64 (get_or xs j 0) 1) 0 lt),
    ground (arith, get_or-set xs j i (sub64 (get_or xs j 0) 1) 0 lt),
  )

  -- Let the balancer have counters, and let the calls be about partitions that have one: selections
  -- with their draws, and completions, in any order. Then it has as many counters after the calls,
  -- and each of them is what it was, plus the selections of its partition and minus its completions,
  -- modulo 2 ^ 64.
  pub after-counts :
      (cs : List Call) (p : PowerOfTwoChoices f) (xs : List ℕ) (i : ℕ)
      → p.inflight ≡ some xs
      → 0 < length xs
      → All (IsWithin (length xs)) cs
      → (ys : List ℕ) × ((after p cs).inflight ≡ some ys)
        × (length ys ≡ length xs)
        × ((get_or ys i 0 + completed i cs) % mod64 ≡ (get_or xs i 0 + selected i p cs) % mod64)
  unfolding after selected completed IsWithin
  after-counts [] p xs i e some_partition v = (xs, e, refl, refl)
  after-counts (select n a b coin ∷ cs) p xs i e some_partition v =
      let (chosen, q) = select_partition f p n a b coin in
      let xs' = set xs chosen (add64 (get_or xs chosen 0) 1) in
      let same = length-set xs chosen (add64 (get_or xs chosen 0) 1) in
      let (ys, at, len, counts) =
        after-counts cs q xs' i (select_partition-inflight p xs n a b coin e some_partition v.0.0)
          (omega (arith, same, some_partition)) (subst (λ l. All (IsWithin l) cs) (sym same) v.1) in
      (
        ys,
        at,
        len ∙ same,
        omega (
          arith,
          counts,
          (one_count xs i chosen
              (select_partition-lt p n a b coin (length xs) some_partition v.0)).0,
        ),
      )
  after-counts (complete j ∷ cs) p xs i e some_partition v =
      let xs' = set xs j (sub64 (get_or xs j 0) 1) in
      let same = length-set xs j (sub64 (get_or xs j 0) 1) in
      let (ys, at, len, counts) =
        after-counts cs (on_publish_complete f p j) xs' i
          (on_publish_complete-inflight p xs j e v.0) (omega (arith, same, some_partition))
          (subst (λ l. All (IsWithin l) cs) (sym same) v.1) in
      (ys, at, len ∙ same, omega (arith, counts, (one_count xs i j v.0).1))

  select_partition-grown :
      (p : PowerOfTwoChoices f) (xs : List ℕ) (n a b coin : ℕ)
      → p.inflight ≡ some xs
      → length xs < n
      → 1 < n
      → let (chosen, q) = select_partition f p n a b coin in
        q.inflight ≡ some (set (replicate n 0) chosen (add64 (get_or (replicate n 0) chosen 0) 1))
  unfolding select_partition count_up ensure_inflight
  select_partition-grown p xs n a b coin e few many = ground (arith, e, few, many)

  -- A selection for a topic with at least two partitions and with more than there are counters
  -- starts all counters at zero. A publish that was in flight then, to a partition other than the
  -- one chosen, leaves its counter at -1 when it completes.
  pub grown-forgets :
      (p : PowerOfTwoChoices f) (xs : List ℕ) (n a b coin j : ℕ)
      → p.inflight ≡ some xs
      → length xs < n
      → 1 < n
      → a < n
      → b < n - 1
      → j < length xs
      → j ≢ (select_partition f p n a b coin).0
      → (ys : List ℕ) × ((on_publish_complete f (select_partition f p n a b coin).1 j).inflight
          ≡ some ys)
        × (get_or ys j 0 ≡ mod64 - 1)
  grown-forgets p xs n a b coin j e few many ha hb below other =
      let (chosen, q) = select_partition f p n a b coin in
      let zs = set (replicate n 0) chosen (add64 (get_or (replicate n 0) chosen 0) 1) in
      let len : length zs ≡ n =
        length-set (replicate n 0) chosen (add64 (get_or (replicate n 0) chosen 0) 1)
        ∙ length-replicate {A = ℕ} n 0 in
      (
        set zs j (sub64 (get_or zs j 0) 1),
        on_publish_complete-inflight q zs j (select_partition-grown p xs n a b coin e few many)
            (omega (arith, few, below, len)),
        get_or-set_self zs j (sub64 (get_or zs j 0) 1) 0 (omega (arith, few, below, len))
            ∙ ap (λ g. sub64 g 1) {y = 0}
                (get_or-set_ne (replicate n 0) chosen j _ 0 (λ same. other (sym same))
                  ∙ get_or-zeros n j),
      )
