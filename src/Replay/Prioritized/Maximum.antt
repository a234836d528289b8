-- ===== src/Replay/Prioritized/Maximum.antt =====
-- The largest priority of the prioritized buffer.
use nya_queue.Prelude.{
  ℕ, zero, suc, ◌<◌, ◌∙◌, some, length, length-set, length-replicate, get_elem?, ◌≡◌, refl, inl,
  inr, Bool-cases, Bool, true, false, List, [], ◌∷◌, arith, set, ltb, if◌then◌else◌, All, All-set,
  All-replicate, ◌%◌,
}
use nya_queue.Prelude.Int.{pos, negsuc}
use nya_queue.Prelude.Elems.{All-imp}
use nya_queue.Balancer.{Floats, Compares}
use nya_queue.Replay.{Transition, Powers}
use nya_queue.Replay.Prioritized.{Prioritized, new_prioritized, push, update_priority}
use nya_queue.Replay.Prioritized.Draws.{Action, pushed, updated, act, act_all}
use native.Mathlib.Nat.{mod-lt}

get_elem?-set_at :
    {A : Type 0} → (xs : List A) (i : ℕ) (v : A) → i < length xs → get_elem? (set xs i v) i ≡ some v
get_elem?-set_at [] i v lt = absurd (omega (arith, lt))
get_elem?-set_at (x ∷ xs) zero v lt = refl
get_elem?-set_at (x ∷ xs) (suc i) v lt = get_elem?-set_at xs i v (omega (arith, lt))

module _ (f : Floats) (m : Powers f) (laws : Compares f) where
  open f use {Float, less}

  -- No element is larger than `most`.
  abbrev Bounds : Float → List Float → Type 0
  Bounds most ps = All (λ p. less most p ≡ false) ps

  -- The larger of both bounds everything.
  update-Bounds :
      (most p : Float) (ps : List Float) (i : ℕ)
      → Bounds most ps
      → Bounds (if less most p then p else most) (set ps i p)
  update-Bounds most p ps i h = step (less most p) refl
    where
      step :
          (larger : Bool) → less most p ≡ larger → Bounds (if larger then p else most) (set ps i p)
      step false e = All-set (λ q. less most q ≡ false) ps i p h e
      step true e =
          All-set (λ q. less p q ≡ false) ps i p
            (All-imp (λ q. less most q ≡ false) (λ q. less p q ≡ false) ps
              (λ q above. elim (Bool-cases (less p q)) [
                | inl under ↦ absurd (ground (arith, above, laws.transitive most p q e under))
                | inr done ↦ done
              ])
              h)
            (laws.irreflexive p)

  act-Bounds :
      (b : Prioritized f m) (x : Action Float)
      → Bounds b.max_priority b.priorities
      → Bounds (act f m b x).max_priority (act f m b x).priorities
  unfolding act push update_priority
  act-Bounds b (pushed t) h =
      All-set (λ q. less b.max_priority q ≡ false) b.priorities (b.write_idx % b.capacity)
        b.max_priority h (laws.irreflexive b.max_priority)
  act-Bounds b (updated (negsuc i) e) h = h
  act-Bounds b (updated (pos i) e) h = step (ltb i b.size)
    where
      p : Float
      p = f.plus (m.abs e) m.small

      most : Float
      most = if less b.max_priority p then p else b.max_priority

      step :
          (inside : Bool)
          → let out : Prioritized f m =
              if inside
              then record b { priorities = set b.priorities i p; max_priority = most }
              else b in
            Bounds out.max_priority out.priorities
      step false = h
      step true = update-Bounds b.max_priority p b.priorities i h

  act_all-Bounds :
      (xs : List (Action Float)) (b : Prioritized f m)
      → Bounds b.max_priority b.priorities
      → Bounds (act_all f m b xs).max_priority (act_all f m b xs).priorities
  unfolding act_all
  act_all-Bounds [] b h = h
  act_all-Bounds (x ∷ xs) b h = act_all-Bounds xs (act f m b x) (act-Bounds b x h)

  new-Bounds :
      (z : Transition Float) (n : ℕ) (alpha : Float)
      → less m.one (f.of_int 0) ≡ false
      → let b = new_prioritized f m z n alpha in Bounds b.max_priority b.priorities
  unfolding new_prioritized
  new-Bounds z n alpha e = All-replicate (λ q. less m.one q ≡ false) n (f.of_int 0) e

  -- The buffer has `n` slots.
  abbrev HasSlots : ℕ → Prioritized f m → Type 0
  HasSlots n b = (b.capacity ≡ n) × (length b.priorities ≡ n) × (length b.transitions ≡ n)

  act-HasSlots :
      (n : ℕ) (b : Prioritized f m) (x : Action Float) → HasSlots n b → HasSlots n (act f m b x)
  unfolding act push update_priority
  act-HasSlots n b (pushed t) h = (
    h.0,
    length-set b.priorities (b.write_idx % b.capacity) b.max_priority ∙ h.1,
    length-set b.transitions (b.write_idx % b.capacity) t ∙ h.2,
  )
  act-HasSlots n b (updated (negsuc i) e) h = h
  act-HasSlots n b (updated (pos i) e) h = elim (Bool-cases (ltb i b.size)) [
    | inl inside ↦
        rw (inside) (h.0, length-set b.priorities i (f.plus (m.abs e) m.small) ∙ h.1, h.2)
    | inr outside ↦ rw (outside) h
  ]

  act_all-HasSlots :
      (n : ℕ) (xs : List (Action Float)) (b : Prioritized f m)
      → HasSlots n b
      → HasSlots n (act_all f m b xs)
  unfolding act_all
  act_all-HasSlots n [] b h = h
  act_all-HasSlots n (x ∷ xs) b h = act_all-HasSlots n xs (act f m b x) (act-HasSlots n b x h)

  new-HasSlots :
      (z : Transition Float) (n : ℕ) (alpha : Float) → HasSlots n (new_prioritized f m z n alpha)
  unfolding new_prioritized
  new-HasSlots z n alpha = (refl, length-replicate n (f.of_int 0), length-replicate n z)

  push-slot :
      (n : ℕ) (b : Prioritized f m) (t : Transition Float)
      → HasSlots n b
      → 0 < n
      → (get_elem? (push f m b t).transitions (b.write_idx % n) ≡ some t)
        × (get_elem? (push f m b t).priorities (b.write_idx % n) ≡ some b.max_priority)
  unfolding push
  push-slot n b t h room =
      let lt = mod-lt b.write_idx room in
      rw (h.0) (
        get_elem?-set_at b.transitions (b.write_idx % n) t (omega (arith, lt, h.2)),
        get_elem?-set_at b.priorities (b.write_idx % n) b.max_priority (omega (arith, lt, h.1)),
      )

  -- Let the comparison of floats be irreflexive and transitive, as IEEE 754 has it, 1 not smaller
  -- than 0, and the capacity positive. Then after any pushes and updates of a new
  -- `PrioritizedReplayBuffer` no slot has a priority above `maxPriority`, and the next `Push` puts its
  -- transition into the slot at the write index with the priority `maxPriority`, than which none is
  -- larger then either.
  pub act_all-max_priority :
      (z : Transition Float) (n : ℕ) (alpha : Float) (xs : List (Action Float))
      (t : Transition Float)
      → less m.one (f.of_int 0) ≡ false
      → 0 < n
      → let b = act_all f m (new_prioritized f m z n alpha) xs in
        let b' = push f m b t in
        All (λ p. less b.max_priority p ≡ false) b.priorities
        × (get_elem? b'.transitions (b.write_idx % n) ≡ some t)
        × (get_elem? b'.priorities (b.write_idx % n) ≡ some b.max_priority)
        × All (λ p. less b.max_priority p ≡ false) b'.priorities
  unfolding push
  act_all-max_priority z n alpha xs t e room =
      let b = act_all f m (new_prioritized f m z n alpha) xs in
      let bounds = act_all-Bounds xs (new_prioritized f m z n alpha) (new-Bounds z n alpha e) in
      let slots = act_all-HasSlots n xs (new_prioritized f m z n alpha) (new-HasSlots z n alpha) in
      let slot = push-slot n b t slots room in
      (
        bounds,
        slot.0,
        slot.1,
        All-set (λ q. less b.max_priority q ≡ false) b.priorities (b.write_idx % b.capacity)
            b.max_priority bounds (laws.irreflexive b.max_priority),
      )
