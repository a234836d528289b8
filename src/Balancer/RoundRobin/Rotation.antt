-- ===== src/Balancer/RoundRobin/Rotation.antt =====
-- Without loads `RoundRobin` takes each partition in its turn.
use nya_queue.Prelude.{
  ℕ, zero, suc, ◌+◌, ◌-◌, ◌%◌, ◌<◌, ◌≡◌, inl, inr, sym, ap, ◌∙◌, Bool-cases, ltb, if◌then◌else◌,
  none, some, List, [], ◌∷◌, arith, get_elem?,
}
use nya_queue.Prelude.Elems.{some-inj}
use native.Mathlib.Nat.{mod-lt, mod-add-mod}
use nya_queue.Prelude.Words.{mod64, add64}
use nya_queue.EntryRing.Slots.{wrap_lem, mod-ne}
use nya_queue.Balancer.{Floats}
use nya_queue.Balancer.RoundRobin.{RoundRobin, select_partition}

module _ (f : Floats) where
  -- The choices of `m` calls, one after another.
  unfoldable pub choices : RoundRobin f → ℕ → ℕ → List ℕ
  choices rr n zero = []
  choices rr n (suc m) = let (out, rr') = select_partition f rr n in out ∷ choices rr' n m

  select_partition-none :
      (rr : RoundRobin f) (n : ℕ)
      → rr.loads ≡ none
      → select_partition f rr n
        ≡ (add64 rr.counter 1 % n, record rr { counter = add64 rr.counter 1 })
  unfolding select_partition
  select_partition-none rr n unknown = ground (arith, unknown)

  choices-at :
      (m k n : ℕ) (rr : RoundRobin f)
      → rr.loads ≡ none
      → rr.counter + m < mod64
      → k < m
      → get_elem? (choices rr n m) k ≡ some ((rr.counter + 1 + k) % n)
  unfolding choices
  choices-at zero k n rr unknown room lt = absurd (omega arith)
  choices-at (suc m) zero n rr unknown room lt = ap some (
      ap (λ r. r.0) (select_partition-none rr n unknown)
      ∙ ap (λ k. k % n) {y = rr.counter + 1 + 0} (omega arith))
  choices-at (suc m) (suc k) n rr unknown room lt =
      let next = ap (λ r. r.1) (select_partition-none rr n unknown) in
      ap (λ r. get_elem? (choices r n m) k) next
      ∙ choices-at m k n (record rr { counter = add64 rr.counter 1 }) unknown (omega arith)
          (omega arith)
      ∙ ap (λ x. some (x % n)) {y = rr.counter + 1 + suc k} (omega arith)

  -- Let a `RoundRobin` know no loads, and let the counter not reach 2 ^ 64 in as many calls as there
  -- are partitions. Then these calls choose each partition, and each just once.
  pub choices-each_once :
      (rr : RoundRobin f) (n t : ℕ)
      → rr.loads ≡ none
      → rr.counter + n < mod64
      → t < n
      → (k : ℕ) × (k < n)
        × (get_elem? (choices rr n n) k ≡ some t)
        × ((j : ℕ) → j < n → get_elem? (choices rr n n) j ≡ some t → j ≡ k)
  choices-each_once rr n t unknown room lt = (
    turn,
    turn_lt,
    at turn turn_lt ∙ ap some hits,
    λ j below e. elim (Bool-cases (ltb j turn)) [
      | inl less ↦ absurd (
          mod-ne start j turn n start_lt (ground (arith, less)) turn_lt
            (some-inj (sym (at j below) ∙ e) ∙ sym hits))
      | inr ge ↦ elim (Bool-cases (ltb turn j)) [
        | inl more ↦ absurd (
            mod-ne start turn j n start_lt (ground (arith, more)) below
              (hits ∙ sym (some-inj (sym (at j below) ∙ e))))
        | inr le ↦ ground (arith, ge, le)
      ]
    ],
  )
    where
      start : ℕ
      start = (rr.counter + 1) % n

      start_lt : start < n
      start_lt = mod-lt (rr.counter + 1) (omega arith)

      turn : ℕ
      turn = if ltb t start then t + n - start else t - start

      turn_lt : turn < n
      turn_lt = ground (arith, lt, start_lt)

      at : (k : ℕ) → k < n → get_elem? (choices rr n n) k ≡ some ((start + k) % n)
      at k below =
          choices-at n k n rr unknown room below ∙ ap some (sym (mod-add-mod (rr.counter + 1) n k))

      hits : (start + turn) % n ≡ t
      hits =
          ground
            (arith, lt, start_lt, wrap_lem (start + turn) n (ground (arith, lt, start_lt, turn_lt)))
