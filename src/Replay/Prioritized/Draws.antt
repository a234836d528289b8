-- ===== src/Replay/Prioritized/Draws.antt =====
-- What the prioritized buffer keeps, and what it draws.
use nya_queue.Prelude.{
  ℕ, zero, suc, ◌+◌, ◌-◌, ◌%◌, ◌≤◌, ◌<◌, ◌≡◌, min, refl, sym, ap, ap₂, ◌∙◌, subst, inl, inr,
  Bool-cases, Bool, true, false, some, List, [], ◌∷◌, ◌++◌, map, arith, length, set, take, drop,
  if◌then◌else◌, ltb, ltb→lt, ltb_false→le, ◌==◌, get_elem?, get_or, replicate, All, length-map,
  length-replicate, length-set, length-append, length-take, append-nil, append_assoc,
}
use nya_queue.Prelude.Int.{ℤ, pos, negsuc}
use nya_queue.Prelude.Elems.{All-map, All-imp, get_elem?-total, get_or-get_elem?}
use nya_queue.Balancer.{Floats}
use nya_queue.Prelude.Cyclic.{Holds, Holds-nil, Holds-push, slot-recent}
use nya_queue.Replay.{Transition, Powers}
use nya_queue.Replay.Recent.{IsRecent}
use nya_queue.Replay.Prioritized.{
  Prioritized, Drawn, new_prioritized, push, find_sum, draw_from, normalized, sample, sum_from,
  update_priority,
}

-- What a caller does to a buffer.
pub data Action (Float : Type 0) : Type 0 where
  pushed : Transition Float → Action Float
  updated : ℤ → Float → Action Float

unfoldable pub pushes : {Float : Type 0} → List (Action Float) → List (Transition Float)
pushes [] = []
pushes (pushed t ∷ xs) = t ∷ pushes xs
pushes (updated i e ∷ xs) = pushes xs

module _ (f : Floats) (m : Powers f) where
  open f use {Float, less}

  unfoldable pub act : Prioritized f m → Action Float → Prioritized f m
  act b (pushed t) = push f m b t
  act b (updated i e) = update_priority f m b i e

  unfoldable pub act_all : Prioritized f m → List (Action Float) → Prioritized f m
  act_all b [] = b
  act_all b (x ∷ xs) = act_all (act b x) xs

  -- The buffer after the pushes `h`, with updates between them.
  record IsAfter (b : Prioritized f m) (h : List (Transition Float)) : Type 0 where
    amount : length b.transitions ≡ b.capacity
    as_many : length b.priorities ≡ b.capacity
    room : 0 < b.capacity
    count : b.write_idx ≡ length h
    filled : b.size ≡ min (length h) b.capacity
    holds : Holds b.transitions h

  push-IsAfter :
      (b : Prioritized f m) (h : List (Transition Float)) (t : Transition Float)
      → IsAfter b h
      → IsAfter (push f m b t) (h ++ (t ∷ []))
  unfolding push
  push-IsAfter b h t a = record {
    amount = length-set b.transitions (b.write_idx % b.capacity) t ∙ a.amount;
    as_many = length-set b.priorities (b.write_idx % b.capacity) b.max_priority ∙ a.as_many;
    room = a.room;
    count = ground (arith, a.count, length-append h (t ∷ []));
    filled = ground (arith, a.filled, length-append h (t ∷ []));
    holds =
        subst (λ i. Holds (set b.transitions i t) (h ++ (t ∷ [])))
          (ap₂ (λ x y. x % y) (sym a.count) a.amount) (Holds-push b.transitions h t a.holds);
  }

  if-IsAfter :
      (test : Bool) (b c : Prioritized f m) (h : List (Transition Float))
      → IsAfter b h
      → IsAfter c h
      → IsAfter (if test then b else c) h
  if-IsAfter true b c h x y = x
  if-IsAfter false b c h x y = y

  -- Other priorities, as many, change nothing of it.
  with-IsAfter :
      (b : Prioritized f m) (h : List (Transition Float)) (ps : List Float) (most : Float)
      → length ps ≡ b.capacity
      → IsAfter b h
      → IsAfter (record b { priorities = ps; max_priority = most }) h
  with-IsAfter b h ps most e a = record {
    amount = a.amount;
    as_many = e;
    room = a.room;
    count = a.count;
    filled = a.filled;
    holds = a.holds;
  }

  update_priority-IsAfter :
      (b : Prioritized f m) (h : List (Transition Float)) (i : ℤ) (e : Float)
      → IsAfter b h
      → IsAfter (update_priority f m b i e) h
  unfolding update_priority
  update_priority-IsAfter b h (negsuc i) e a = a
  update_priority-IsAfter b h (pos i) e a =
      let p = f.plus (m.abs e) m.small in
      if-IsAfter (ltb i b.size) _ b h
        (with-IsAfter b h (set b.priorities i p)
          (if less b.max_priority p then p else b.max_priority)
          (length-set b.priorities i p ∙ a.as_many) a)
        a

  act_all-IsAfter :
      (xs : List (Action Float)) (b : Prioritized f m) (h : List (Transition Float))
      → IsAfter b h
      → IsAfter (act_all b xs) (h ++ pushes xs)
  unfolding act_all act pushes
  act_all-IsAfter [] b h a = subst (IsAfter b) (sym (append-nil h)) a
  act_all-IsAfter (pushed t ∷ xs) b h a =
      subst (IsAfter (act_all (push f m b t) xs)) (append_assoc h (t ∷ []) (pushes xs))
        (act_all-IsAfter xs (push f m b t) (h ++ (t ∷ [])) (push-IsAfter b h t a))
  act_all-IsAfter (updated i e ∷ xs) b h a =
      act_all-IsAfter xs (update_priority f m b i e) h (update_priority-IsAfter b h i e a)

  new-IsAfter :
      (z : Transition Float) (n : ℕ) (alpha : Float)
      → 0 < n
      → IsAfter (new_prioritized f m z n alpha) []
  unfolding new_prioritized
  new-IsAfter z n alpha room = record {
    amount = length-replicate n z;
    as_many = length-replicate n (f.of_int 0);
    room = room;
    count = refl;
    filled = omega (arith, room);
    holds = Holds-nil (replicate n z) (omega (arith, room, length-replicate n z));
  }

  update_priority-capacity :
      (b : Prioritized f m) (i : ℤ) (e : Float) → (update_priority f m b i e).capacity ≡ b.capacity
  unfolding update_priority
  update_priority-capacity b (negsuc i) e = refl
  update_priority-capacity b (pos i) e = ground arith

  act_all-capacity :
      (xs : List (Action Float)) (b : Prioritized f m) → (act_all b xs).capacity ≡ b.capacity
  unfolding act_all act push
  act_all-capacity [] b = refl
  act_all-capacity (pushed t ∷ xs) b = act_all-capacity xs (push f m b t)
  act_all-capacity (updated i e ∷ xs) b =
      act_all-capacity xs (update_priority f m b i e) ∙ update_priority-capacity b i e

  new-capacity :
      (z : Transition Float) (n : ℕ) (alpha : Float) → (new_prioritized f m z n alpha).capacity ≡ n
  unfolding new_prioritized
  new-capacity z n alpha = refl

  -- The search ends within the list.
  find_sum-lt :
      (r cum : Float) (idx j : ℕ) (ps : List Float)
      → idx < j + length ps
      → (find_sum f m r cum idx j ps < j + length ps)
  unfolding find_sum
  find_sum-lt r cum idx j [] lt = lt
  find_sum-lt r cum idx j (p ∷ ps) lt =
      ground (arith, find_sum-lt r (f.plus cum p) j (j + 1) ps (omega arith))

  -- Each element drawn has its place in the buffer, and the transition there.
  abbrev IsDrawn : Transition Float → Prioritized f m → Drawn f m → Type 0
  IsDrawn z b d = (d.index < b.size) × (d.transition ≡ get_or b.transitions d.index z)

  draw_from-IsDrawn :
      (z : Transition Float) (b : Prioritized f m) (probs : List Float) (total beta : Float)
      (draw : ℕ → Float) (i left : ℕ) (most : Float)
      → length probs ≡ b.size
      → 0 < b.size
      → let out = (draw_from f m z b probs total beta draw i left most).0 in
        (length out ≡ left) × All (IsDrawn z b) out
  unfolding draw_from
  draw_from-IsDrawn z b probs total beta draw i zero most e some_left = (refl, tt)
  draw_from-IsDrawn z b probs total beta draw i (suc left) most e some_left =
      let rest = draw_from-IsDrawn z b probs total beta draw (i + 1) left _ e some_left in
      (
        ap suc rest.0,
        (
          (
            omega (
              arith,
              find_sum-lt (f.times (draw i) total) (f.of_int 0) 0 0 probs
                  (omega (arith, e, some_left)),
              e,
            ),
            refl,
          ),
          rest.1,
        ),
      )

  -- A batch of `n` elements drawn from the buffer.
  abbrev IsBatch : Transition Float → Prioritized f m → ℕ → List (Drawn f m) → Type 0
  IsBatch z b n out = (length out ≡ n) × All (IsDrawn z b) out

  normalized-IsBatch :
      (z : Transition Float) (b : Prioritized f m) (n : ℕ) (largest : Float) (test : Bool)
      (out : List (Drawn f m))
      → IsBatch z b n out
      → IsBatch z b n (if test then map (normalized f m largest) out else out)
  unfolding normalized
  normalized-IsBatch z b n largest false out h = h
  normalized-IsBatch z b n largest true out h = (
    length-map (normalized f m largest) out ∙ h.0,
    All-map (IsDrawn z b) (IsDrawn z b) (normalized f m largest) out (λ d v. v) h.1,
  )

  sample-none :
      (z : Transition Float) (is_zero : Float → Bool) (draw : ℕ → Float) (b : Prioritized f m)
      (batch_size : ℕ) (beta : Float)
      → b.size ≡ 0
      → sample f m z is_zero draw b batch_size beta ≡ []
  unfolding sample
  sample-none z is_zero draw b batch_size beta e = rw e refl

  sample-some :
      (z : Transition Float) (is_zero : Float → Bool) (draw : ℕ → Float) (b : Prioritized f m)
      (batch_size : ℕ) (beta : Float)
      → 0 < b.size
      → let probs = map (λ p. m.pow p b.alpha) (take b.size b.priorities) in
        let sum = sum_from f m (f.of_int 0) probs in
        let (batch, largest) =
          draw_from f m z b probs
            (if is_zero sum then m.one else sum)
            beta
            draw
            0
            (min batch_size b.size)
            (f.of_int 0) in
        sample f m z is_zero draw b batch_size beta
        ≡ (if less (f.of_int 0) largest then map (normalized f m largest) batch else batch)
  unfolding sample
  sample-some z is_zero draw b batch_size beta some_left =
      let count : (if ltb b.size batch_size then b.size else batch_size) ≡ min batch_size b.size =
        ground arith in
      let test : (b.size == 0) ≡ false = ground (arith, some_left) in rw (count, test) refl

  sample-IsBatch :
      (z : Transition Float) (is_zero : Float → Bool) (draw : ℕ → Float) (b : Prioritized f m)
      (batch_size : ℕ) (beta : Float)
      → b.size ≤ length b.priorities
      → IsBatch z b (min batch_size b.size) (sample f m z is_zero draw b batch_size beta)
  sample-IsBatch z is_zero draw b batch_size beta le = elim (Bool-cases (ltb 0 b.size)) [
    | inl some_left ↦
        let probs = map (λ p. m.pow p b.alpha) (take b.size b.priorities) in
        let amount =
          length-map (λ p. m.pow p b.alpha) (take b.size b.priorities)
          ∙ length-take b.size b.priorities in
        let more = ltb→lt _ _ some_left in
        subst (IsBatch z b (min batch_size b.size))
          (sym (sample-some z is_zero draw b batch_size beta more))
          (normalized-IsBatch z b (min batch_size b.size) _ _ _ (
            draw_from-IsDrawn z b probs _ beta draw 0 (min batch_size b.size) (f.of_int 0)
              (omega (arith, amount, le)) more))
    | inr empty ↦
        let none_there : b.size ≡ 0 = omega (arith, ltb_false→le _ _ empty) in
        subst (IsBatch z b (min batch_size b.size))
          (sym (sample-none z is_zero draw b batch_size beta none_there))
          (omega (arith, none_there), tt)
  ]

  -- Let any pushes to and updates of a new `PrioritizedReplayBuffer` of positive capacity `n` have
  -- happened, in any order, the updates with any index. Then `Sample`, with any random numbers,
  -- returns as many elements as were asked for, or as the smaller of the pushes and `n` if that is
  -- less; each has an index below that number, and the transition at its index, which is one of the
  -- last `n` pushed.
  pub sample-lasts :
      (z : Transition Float) (is_zero : Float → Bool) (draw : ℕ → Float) (n batch_size : ℕ)
      (alpha beta : Float) (xs : List (Action Float))
      → 0 < n
      → let b = act_all (new_prioritized f m z n alpha) xs in
        let out = sample f m z is_zero draw b batch_size beta in
        (length out ≡ min batch_size (min (length (pushes xs)) n))
        × All
            (λ (d : Drawn f m).
              (d.index < min (length (pushes xs)) n)
              × (d.transition ≡ get_or b.transitions d.index z)
              × IsRecent (pushes xs) n d.transition)
            out
  sample-lasts z is_zero draw n batch_size alpha beta xs room =
      let batch =
        sample-IsBatch z is_zero draw b batch_size beta
          (omega (arith, after.filled, after.as_many)) in
      (
        batch.0 ∙ ap (min batch_size) size,
        All-imp (IsDrawn z b) _ (sample f m z is_zero draw b batch_size beta)
            (λ d v. (omega (arith, v.0, size), v.1, lasts d v)) batch.1,
      )
    where
      b : Prioritized f m
      b = act_all (new_prioritized f m z n alpha) xs

      after : IsAfter b (pushes xs)
      after = act_all-IsAfter xs (new_prioritized f m z n alpha) [] (new-IsAfter z n alpha room)

      holds_n : b.capacity ≡ n
      holds_n = act_all-capacity xs (new_prioritized f m z n alpha) ∙ new-capacity z n alpha

      size : b.size ≡ min (length (pushes xs)) n
      size = after.filled ∙ ap (min (length (pushes xs))) holds_n

      lasts : (d : Drawn f m) → IsDrawn z b d → IsRecent (pushes xs) n d.transition
      lasts d v =
          let (x, at) =
            get_elem?-total b.transitions d.index
              (omega (arith, v.0, after.filled, after.amount)) in
          let (j, found) =
            slot-recent b.transitions (pushes xs) d.index x after.holds (omega (arith, v.0, size))
              at in
          (
            j,
            ap (λ k. get_elem? (drop (length (pushes xs) - k) (pushes xs)) j)
                  (sym (after.amount ∙ holds_n))
                ∙ found
                ∙ ap (λ t. some t) (sym (v.1 ∙ get_or-get_elem? b.transitions d.index x z at)),
          )
