-- ===== src/Balancer/RoundRobin/Skipping.antt =====
-- Where `RoundRobin.SelectPartition` ends up.
use nya_queue.Prelude.{
  ℕ, zero, suc, ◌+◌, ◌%◌, ◌≤◌, ◌<◌, ◌≡◌, ◌⊎◌, inl, inr, refl, sym, ap, ◌∙◌, Bool-cases, true, false,
  Option, none, some, List, arith,
}
use native.Mathlib.Nat.{mod-lt, mod-eq_of_lt, mod-add-mod}
use nya_queue.Prelude.Int.{ℤ, pos, negsuc}
use nya_queue.Prelude.Words.{add64}
use nya_queue.Balancer.{Floats}
use nya_queue.Balancer.RoundRobin.{RoundRobin, is_loaded, skip_loaded, select_partition}

here : (i n : ℕ) → i < n → (i + 0) % n ≡ i
here i n lt = ap (λ k. k % n) {y = i} (omega arith) ∙ mod-eq_of_lt lt

module _ (f : Floats) where
  skip_loaded-lt :
      (loads : List f.Float) (t : f.Float) (n tries i : ℕ)
      → i < n
      → skip_loaded f loads t n tries i < n
  unfolding skip_loaded
  skip_loaded-lt loads t n zero i lt = lt
  skip_loaded-lt loads t n (suc tries) i lt =
      ground (arith, lt, skip_loaded-lt loads t n tries ((i + 1) % n) (omega arith))

  -- The outcome of the loop: `s` partitions that are loaded were passed, in turn from `i` on, and
  -- either the tries are used up or the partition reached is not loaded.
  abbrev pub SkipsTo : List f.Float → f.Float → ℕ → ℕ → ℕ → ℕ → Type 0
  SkipsTo loads t n tries i out =
      (s : ℕ) × (s ≤ tries)
      × (out ≡ (i + s) % n)
      × ((j : ℕ) → j < s → is_loaded f loads t ((i + j) % n) ≡ true)
      × ((s ≡ tries) ⊎ (is_loaded f loads t out ≡ false))

  skip_loaded-zero :
      (loads : List f.Float) (t : f.Float) (n i : ℕ) → skip_loaded f loads t n zero i ≡ i
  unfolding skip_loaded
  skip_loaded-zero loads t n i = refl

  skip_loaded-stop :
      (loads : List f.Float) (t : f.Float) (n tries i : ℕ)
      → is_loaded f loads t i ≡ false
      → skip_loaded f loads t n tries i ≡ i
  unfolding skip_loaded
  skip_loaded-stop loads t n zero i e = refl
  skip_loaded-stop loads t n (suc tries) i e = ground (arith, e)

  skip_loaded-go :
      (loads : List f.Float) (t : f.Float) (n tries i : ℕ)
      → is_loaded f loads t i ≡ true
      → skip_loaded f loads t n (suc tries) i ≡ skip_loaded f loads t n tries ((i + 1) % n)
  unfolding skip_loaded
  skip_loaded-go loads t n tries i e = ground (arith, e)

  -- The partitions passed, with one more before them.
  passed_suc :
      (loads : List f.Float) (t : f.Float) (n s i : ℕ)
      → i < n
      → is_loaded f loads t i ≡ true
      → ((j : ℕ) → j < s → is_loaded f loads t (((i + 1) % n + j) % n) ≡ true)
      → (j : ℕ) → j < suc s
      → is_loaded f loads t ((i + j) % n) ≡ true
  passed_suc loads t n s i lt loaded passed zero below =
      ap (is_loaded f loads t) (here i n lt) ∙ loaded
  passed_suc loads t n s i lt loaded passed (suc j) below =
      ap (λ k. is_loaded f loads t (k % n)) {y = i + 1 + j} (omega arith)
      ∙ ap (is_loaded f loads t) (sym (mod-add-mod (i + 1) n j))
      ∙ passed j (omega arith)

  skip_loaded-SkipsTo :
      (loads : List f.Float) (t : f.Float) (n tries i : ℕ)
      → i < n
      → SkipsTo loads t n tries i (skip_loaded f loads t n tries i)
  skip_loaded-SkipsTo loads t n zero i lt = (
    0,
    omega arith,
    skip_loaded-zero loads t n i ∙ sym (here i n lt),
    λ j below. absurd (omega arith),
    inl refl,
  )
  skip_loaded-SkipsTo loads t n (suc tries) i lt = elim (Bool-cases (is_loaded f loads t i)) [
    | inl loaded ↦
        let (s, most, at, passed, end) =
          skip_loaded-SkipsTo loads t n tries ((i + 1) % n) (mod-lt (i + 1) (omega arith)) in
        let step = skip_loaded-go loads t n tries i loaded in
        (
          suc s,
          omega arith,
          step ∙ at ∙ mod-add-mod (i + 1) n s ∙ ap (λ k. k % n) {x = i + 1 + s} (omega arith),
          passed_suc loads t n s i lt loaded passed,
          elim end [
            | inl all ↦ inl (ap suc all)
            | inr free ↦ inr (ap (is_loaded f loads t) step ∙ free)
          ],
        )
    | inr free ↦
        let stop = skip_loaded-stop loads t n (suc tries) i free in
        (
          0,
          omega arith,
          stop ∙ sym (here i n lt),
          λ j below. absurd (omega arith),
          inr (ap (is_loaded f loads t) stop ∙ free),
        )
  ]

  -- What is chosen, by the budget and the loads.
  abbrev pub Outcome : ℤ → Option (List f.Float) → f.Float → ℕ → ℕ → ℕ → Type 0
  Outcome (negsuc _) loads t n start out = out ≡ start
  Outcome (pos budget) none t n start out = out ≡ start
  Outcome (pos budget) (some loads) t n start out = SkipsTo loads t n budget start out

  chosen-Outcome :
      (budget : ℤ) (loads : Option (List f.Float)) (c : ℕ) (t : f.Float) (n : ℕ)
      → 0 < n
      → let rr : RoundRobin f = record {
        counter = c;
        loads = loads;
        threshold = t;
        budget = budget;
      } in
        let start = add64 c 1 % n in
        let (out, rr') = select_partition f rr n in
        (rr' ≡ record rr { counter = add64 c 1 }) × (out < n) × Outcome budget loads t n start out
  unfolding select_partition
  chosen-Outcome (negsuc _) loads c t n positive = (refl, mod-lt (add64 c 1) positive, refl)
  chosen-Outcome (pos budget) none c t n positive = (refl, mod-lt (add64 c 1) positive, refl)
  chosen-Outcome (pos budget) (some loads) c t n positive = (
    refl,
    skip_loaded-lt loads t n budget (add64 c 1 % n) (mod-lt (add64 c 1) positive),
    skip_loaded-SkipsTo loads t n budget (add64 c 1 % n) (mod-lt (add64 c 1) positive),
  )

  -- Let there be at least one partition. `SelectPartition` of `RoundRobin` counts one up and starts
  -- at the counter modulo the number of partitions. If no loads are known, or the budget is not
  -- positive, it chooses that partition. Else it passes some partitions in turn, no more than the
  -- budget, all of them loaded above the threshold, and the one it chooses is not, unless the budget
  -- is used up. It chooses one of the partitions in any case.
  pub select_partition-Outcome :
      (rr : RoundRobin f) (n : ℕ)
      → 0 < n
      → let (out, rr') = select_partition f rr n in
        (rr' ≡ record rr { counter = add64 rr.counter 1 })
        × (out < n)
        × Outcome rr.budget rr.loads rr.threshold n (add64 rr.counter 1 % n) out
  select_partition-Outcome rr n positive =
      chosen-Outcome rr.budget rr.loads rr.counter rr.threshold n positive
