-- ===== src/Replay/Recent.antt =====
-- `ReplayBuffer` keeps the last transitions, and samples are drawn from these.
use nya_queue.Prelude.{
  ℕ, zero, suc, ◌+◌, ◌-◌, ◌%◌, ◌^◌, ◌≤◌, ◌<◌, ◌≡◌, min, refl, sym, ap, ap₂, ◌∙◌, subst, inl, inr,
  Bool-cases, Option, none, some, List, [], ◌∷◌, ◌++◌, map, arith, length, set, drop, ltb, ltb→lt,
  ltb_false→le, get_elem?, get_or, append-nil, append_assoc, replicate, length-map,
  length-replicate, length-set, length-append,
}
use nya_queue.Prelude.Elems.{
  some-inj, get_elem?-total, get_or-get_elem?, get_elem?-set, get_elem?-lt,
}
use nya_queue.Prelude.Words.{mod64}
use nya_queue.Prelude.Cyclic.{Holds, Holds-nil, Holds-push, slot-recent}
use nya_queue.Replay.{
  Transition, ReplayBuffer, new_replay_buffer, push, len, sample_from, sample_into, sample,
}
use native.Mathlib.Nat.{mod-lt}

new-capacity : (Float : Type 0) (n : ℕ) → (new_replay_buffer {Float = Float} n).capacity ≡ n
unfolding new_replay_buffer
new-capacity Float n = refl

module _ {Float : Type 0} where
  unfoldable pub push_all : ReplayBuffer Float → List (Transition Float) → ReplayBuffer Float
  push_all rb [] = rb
  push_all rb (t ∷ ts) = push_all (push rb t) ts

  -- The buffer after the pushes `h`.
  record IsAfter (rb : ReplayBuffer Float) (h : List (Transition Float)) : Type 0 where
    amount : length rb.slots ≡ rb.capacity
    room : 0 < rb.capacity
    count : rb.write_idx ≡ length h
    holds : Holds rb.slots (map some h)

  map-snoc :
      (h : List (Transition Float)) (t : Transition Float)
      → map (λ x. some x) (h ++ (t ∷ [])) ≡ map (λ x. some x) h ++ (some t ∷ [])
  map-snoc [] t = refl
  map-snoc (x ∷ h) t = ap (λ r. some x ∷ r) (map-snoc h t)

  push-IsAfter :
      (rb : ReplayBuffer Float) (h : List (Transition Float)) (t : Transition Float)
      → length h + 1 < mod64
      → IsAfter rb h
      → IsAfter (push rb t) (h ++ (t ∷ []))
  unfolding push
  push-IsAfter rb h t word a = record {
    amount = length-set rb.slots (rb.write_idx % rb.capacity) (some t) ∙ a.amount;
    room = a.room;
    count = ground (arith, word, a.count, length-append h (t ∷ []));
    holds =
        subst (λ i. Holds (set rb.slots i (some t)) (map some (h ++ (t ∷ []))))
          (ap₂ (λ a b. a % b) (length-map some h ∙ sym a.count) a.amount)
          (subst (Holds _) (sym (map-snoc h t))
            (Holds-push rb.slots (map some h) (some t) a.holds));
  }

  push_all-IsAfter :
      (ts : List (Transition Float)) (rb : ReplayBuffer Float) (h : List (Transition Float))
      → length h + length ts < mod64
      → IsAfter rb h
      → IsAfter (push_all rb ts) (h ++ ts)
  unfolding push_all
  push_all-IsAfter [] rb h word a = subst (IsAfter rb) (sym (append-nil h)) a
  push_all-IsAfter (t ∷ ts) rb h word a =
      subst (IsAfter (push_all (push rb t) ts)) (append_assoc h (t ∷ []) ts) (
        push_all-IsAfter ts (push rb t) (h ++ (t ∷ []))
          (omega (arith, word, length-append h (t ∷ [])))
          (push-IsAfter rb h t (omega (arith, word)) a))

  new-IsAfter : (capacity : ℕ) → 0 < capacity → IsAfter (new_replay_buffer capacity) []
  unfolding new_replay_buffer
  new-IsAfter capacity pos = record {
    amount = length-replicate capacity none;
    room = pos;
    count = refl;
    holds =
        Holds-nil (replicate capacity none)
          (omega (arith, pos, length-replicate {A = Option (Transition Float)} capacity none));
  }

  -- One of the last `n` of a history.
  abbrev pub IsRecent : List (Transition Float) → ℕ → Transition Float → Type 0
  IsRecent h n x = (j : ℕ) × (get_elem? (drop (length h - n) h) j ≡ some x)

  drop-map-some :
      (k j : ℕ) (h : List (Transition Float)) (o : Option (Transition Float))
      → get_elem? (drop k (map (λ t. some t) h)) j ≡ some o
      → (t : Transition Float) × (o ≡ some t) × (get_elem? (drop k h) j ≡ some t)
  drop-map-some zero j [] o e = absurd (ground (arith, e))
  drop-map-some zero zero (y ∷ h) o e = (y, sym (some-inj e), refl)
  drop-map-some zero (suc j) (y ∷ h) o e = drop-map-some zero j h o e
  drop-map-some (suc k) j [] o e = absurd (ground (arith, e))
  drop-map-some (suc k) j (y ∷ h) o e = drop-map-some k j h o e

  len-IsAfter :
      (rb : ReplayBuffer Float) (h : List (Transition Float))
      → IsAfter rb h
      → len rb ≡ min (length h) rb.capacity
  unfolding len
  len-IsAfter rb h a = ground (arith, a.count)

  -- A slot below the length has a recent transition.
  slot-IsRecent :
      (rb : ReplayBuffer Float) (h : List (Transition Float)) (i : ℕ)
      → IsAfter rb h
      → i < len rb
      → (t : Transition Float) × (get_or rb.slots i none ≡ some t) × IsRecent h rb.capacity t
  slot-IsRecent rb h i a lt =
      let (o, at) = get_elem?-total rb.slots i (ground (arith, lt, a.amount, len-IsAfter rb h a)) in
      let (j, found) =
        slot-recent rb.slots (map some h) i o a.holds
          (ground
            (arith, lt, length-map {B = Option (Transition Float)} some h, len-IsAfter rb h a))
          at in
      let (t, full, recent) = drop-map-some (length h - rb.capacity) j h o (
        ap₂ (λ a b. get_elem? (drop (a - b) (map some h)) j) (sym (length-map some h))
          (sym a.amount)
        ∙ found) in
      (t, get_or-get_elem? rb.slots i o none at ∙ full, (j, recent))

  -- Every transition below a place.
  abbrev RecentBelow : List (Transition Float) → ℕ → ℕ → List (Transition Float) → Type 0
  RecentBelow h n i dst =
      (k : ℕ) (x : Transition Float) → k < i → get_elem? dst k ≡ some x → IsRecent h n x

  set-RecentBelow :
      (h dst : List (Transition Float)) (n i : ℕ) (t : Transition Float)
      → IsRecent h n t
      → RecentBelow h n i dst
      → RecentBelow h n (i + 1) (set dst i t)
  set-RecentBelow h dst n i t recent below k x lt e = elim (get_elem?-set dst i k t x e) [
    | inl (_, same) ↦ subst (IsRecent h n) same recent
    | inr (ne, old) ↦ below k x (omega (arith, ne, lt)) old
  ]

  sample_from-some :
      (slots : List (Option (Transition Float))) (n : ℕ) (draw : ℕ → ℕ) (i left : ℕ)
      (dst : List (Transition Float)) (t : Transition Float)
      → get_or slots (draw i % n) none ≡ some t
      → sample_from slots n draw i (suc left) dst
        ≡ sample_from slots n draw (i + 1) left (set dst i t)
  unfolding sample_from
  sample_from-some slots n draw i left dst t e = ground (arith, e)

  -- The rest of the loop.
  sample_from-RecentBelow :
      (rb : ReplayBuffer Float) (h dst : List (Transition Float)) (draw : ℕ → ℕ) (left i : ℕ)
      → IsAfter rb h
      → 0 < len rb
      → RecentBelow h rb.capacity i dst
      → (length (sample_from rb.slots (len rb) draw i left dst) ≡ length dst)
        × RecentBelow h rb.capacity (i + left) (sample_from rb.slots (len rb) draw i left dst)
  unfolding sample_from
  sample_from-RecentBelow rb h dst draw zero i a pos below =
      (refl, λ k x lt e. below k x (omega arith) e)
  sample_from-RecentBelow rb h dst draw (suc left) i a pos below =
      let (t, at, recent) = slot-IsRecent rb h (draw i % len rb) a (mod-lt (draw i) pos) in
      let rest =
        sample_from-RecentBelow rb h (set dst i t) draw left (i + 1) a pos
          (set-RecentBelow h dst rb.capacity i t recent below) in
      subst (λ out. (length out ≡ length dst) × RecentBelow h rb.capacity (i + suc left) out)
        (sym (sample_from-some rb.slots (len rb) draw i left dst t at))
        (rest.0 ∙ length-set dst i t, λ k x lt e. rest.1 k x (omega (arith, lt)) e)

  push_all-capacity :
      (ts : List (Transition Float)) (rb : ReplayBuffer Float)
      → (push_all rb ts).capacity ≡ rb.capacity
  unfolding push_all push
  push_all-capacity [] rb = refl
  push_all-capacity (t ∷ ts) rb = push_all-capacity ts (push rb t)

  sample_into-some :
      (rb : ReplayBuffer Float) (draw : ℕ → ℕ) (dst : List (Transition Float))
      → 0 < len rb
      → length dst ≤ len rb
      → (sample_into rb draw dst).1 ≡ sample_from rb.slots (len rb) draw 0 (length dst) dst
  unfolding sample_into
  sample_into-some rb draw dst pos le = ground (arith, pos, le)

  sample-into :
      (rb : ReplayBuffer Float) (draw : ℕ → ℕ) (z : Transition Float) (b : ℕ)
      → 0 < len rb
      → sample rb draw z b ≡ (sample_into rb draw (replicate (min b (len rb)) z)).1
  unfolding sample
  sample-into rb draw z b pos = ground (arith, pos)

  sample-none :
      (rb : ReplayBuffer Float) (draw : ℕ → ℕ) (z : Transition Float) (b : ℕ)
      → len rb ≡ 0
      → sample rb draw z b ≡ []
  unfolding sample
  sample-none rb draw z b e = ground (arith, e)

  sample-some :
      (rb : ReplayBuffer Float) (draw : ℕ → ℕ) (z : Transition Float) (b : ℕ)
      → 0 < len rb
      → sample rb draw z b
        ≡ sample_from rb.slots (len rb) draw 0 (min b (len rb)) (replicate (min b (len rb)) z)
  sample-some rb draw z b pos =
      let size = length-replicate (min b (len rb)) z in
      sample-into rb draw z b pos
      ∙ sample_into-some rb draw (replicate (min b (len rb)) z) pos (omega (arith, size))
      ∙ ap (λ k. sample_from rb.slots (len rb) draw 0 k (replicate (min b (len rb)) z)) size

  -- Let some transitions be pushed, fewer than 2 ^ 63, to a new `ReplayBuffer` of positive capacity
  -- `n`. Then it has as many as were pushed, and at most `n`, and `Sample` of any size, with any
  -- random numbers, gives that size, or all there are if it is larger, of transitions each of which
  -- is one of the last `n` pushed.
  pub sample-IsRecent :
      (n batch_size : ℕ) (ts : List (Transition Float)) (draw : ℕ → ℕ)
      (zero_transition : Transition Float)
      → 0 < n
      → length ts < 2 ^ 63
      → let rb = push_all (new_replay_buffer n) ts in
        let out = sample rb draw zero_transition batch_size in
        (len rb ≡ min (length ts) n)
        × (length out ≡ min batch_size (min (length ts) n))
        × ((k : ℕ) (x : Transition Float) → get_elem? out k ≡ some x → IsRecent ts n x)
  sample-IsRecent n batch_size ts draw zero_transition pos word =
      elim (Bool-cases (ltb 0 (len rb))) [
        | inl some_left ↦
            let sampled =
              sample_from-RecentBelow rb ts (replicate (min batch_size (len rb)) zero_transition)
                draw (min batch_size (len rb)) 0 after (ltb→lt _ _ some_left)
                (λ k x lt e. absurd (omega (arith, lt))) in
            let size = length-replicate (min batch_size (len rb)) zero_transition in
            (
              total,
              subst (λ out. length out ≡ min batch_size (min (length ts) n))
                  (sym (sample-some rb draw zero_transition batch_size (ltb→lt _ _ some_left)))
                  (omega (arith, sampled.0, size, total)),
              λ k x e.
                  let same =
                    ap (λ out. get_elem? out k)
                      (sample-some rb draw zero_transition batch_size (ltb→lt _ _ some_left)) in
                  let at = sym same ∙ e in
                  subst (λ c. IsRecent ts c x) holds_n
                    (sampled.1 k x (omega (arith, get_elem?-lt _ k x at, sampled.0, size)) at),
            )
        | inr empty ↦
            let none_there =
              sample-none rb draw zero_transition batch_size
                (omega (arith, ltb_false→le _ _ empty)) in
            (
              total,
              omega (arith, ap length none_there, total, ltb_false→le _ _ empty),
              λ k x e. absurd (ground (arith, sym (ap (λ out. get_elem? out k) none_there) ∙ e)),
            )
      ]
    where
      rb : ReplayBuffer Float
      rb = push_all (new_replay_buffer n) ts

      after : IsAfter rb ts
      after = push_all-IsAfter ts (new_replay_buffer n) [] (omega (arith, word)) (new-IsAfter n pos)

      holds_n : rb.capacity ≡ n
      holds_n = push_all-capacity ts (new_replay_buffer n) ∙ new-capacity Float n

      total : len rb ≡ min (length ts) n
      total = len-IsAfter rb ts after ∙ ap (min (length ts)) holds_n
