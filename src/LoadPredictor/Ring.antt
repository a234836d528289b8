-- ===== src/LoadPredictor/Ring.antt =====
-- `RingBuffer` keeps the last values in their order.
use nya_queue.Prelude.{
  ℕ, ◌+◌, ◌-◌, ◌%◌, ◌≤◌, ◌<◌, ◌≡◌, min, refl, sym, ap, ap₂, ◌∙◌, subst, inl, inr, Bool-cases, false,
  List, [], ◌∷◌, ◌++◌, arith, length, set, take, drop, copy, if◌then◌else◌, ltb, leb, ltb→lt,
  ltb_false→le, ◌==◌, replicate, length-replicate, length-set, length-append, length-take,
  length-drop, append-nil, append_assoc, copy-eq, take-all, drop-all, take-append, drop-append,
}
use nya_queue.Prelude.Cyclic.{Holds, Holds-nil, Holds-push, take-early, drop-late}
use nya_queue.LoadPredictor.{RingBuffer, new_ring_buffer, push, copy_into, values, values_into}
use native.Mathlib.Nat.{mod-lt, mod_self}

module _ {Float : Type 0} where
  unfoldable pub push_all : RingBuffer Float → List Float → RingBuffer Float
  push_all rb [] = rb
  push_all rb (v ∷ vs) = push_all (push rb v) vs

  -- The buffer after the values `h`.
  pub record IsAfter (rb : RingBuffer Float) (size : ℕ) (h : List Float) : Type 0 where
    pub amount : length rb.slots ≡ size
    pub room : 0 < size
    pub count : rb.write_idx ≡ length h
    pub holds : Holds rb.slots h

  pub push-IsAfter :
      (rb : RingBuffer Float) (size : ℕ) (h : List Float) (v : Float)
      → IsAfter rb size h
      → IsAfter (push rb v) size (h ++ (v ∷ []))
  unfolding push
  push-IsAfter rb size h v a = record {
    amount = length-set rb.slots (rb.write_idx % length rb.slots) v ∙ a.amount;
    room = a.room;
    count = ground (arith, a.count, length-append h (v ∷ []));
    holds =
        subst (λ i. Holds (set rb.slots (i % length rb.slots) v) (h ++ (v ∷ []))) (sym a.count)
          (Holds-push rb.slots h v a.holds);
  }

  pub new-IsAfter : (z : Float) (size : ℕ) → 0 < size → IsAfter (new_ring_buffer z size) size []
  unfolding new_ring_buffer
  new-IsAfter z size room = record {
    amount = length-replicate size z;
    room = room;
    count = refl;
    holds = Holds-nil (replicate size z) (omega (arith, room, length-replicate size z));
  }

  push_all-IsAfter :
      (vs : List Float) (rb : RingBuffer Float) (size : ℕ) (h : List Float)
      → IsAfter rb size h
      → IsAfter (push_all rb vs) size (h ++ vs)
  unfolding push_all
  push_all-IsAfter [] rb size h a = subst (IsAfter rb size) (sym (append-nil h)) a
  push_all-IsAfter (v ∷ vs) rb size h a =
      subst (IsAfter (push_all (push rb v) vs) size) (append_assoc h (v ∷ []) vs)
        (push_all-IsAfter vs (push rb v) size (h ++ (v ∷ [])) (push-IsAfter rb size h v a))

  copy-full : (dst src : List Float) → length src ≡ length dst → copy dst src ≡ src
  copy-full dst src e =
      copy-eq dst src (omega (arith, e))
      ∙ ap (λ t. src ++ t) (drop-all (length src) dst (omega (arith, e)))
      ∙ append-nil src

  -- Two copies, one behind the other, fill the destination.
  copy-twice :
      (dst a b : List Float)
      → length dst ≡ length a + length b
      → take (length a) (copy dst a) ++ copy (drop (length a) (copy dst a)) b ≡ a ++ b
  copy-twice dst a b e =
      let first = copy-eq dst a (omega (arith, e)) in
      ap₂ (λ s t. take (length a) s ++ copy (drop (length a) t) b) first first
      ∙ ap₂ (λ s t. s ++ copy t b) (take-append a (drop (length a) dst))
          (drop-append a (drop (length a) dst))
      ∙ ap (λ t. a ++ t)
          (copy-full (drop (length a) dst) b (omega (arith, length-drop (length a) dst, e)))

  -- What the copying comes to: the beginning, or what is behind the turn and what is before it.
  copy_into-early :
      (rb : RingBuffer Float) (dst : List Float) (w size : ℕ)
      → w ≤ size
      → length rb.slots ≡ size
      → length dst ≡ w
      → copy_into rb dst w size w ≡ take w rb.slots
  unfolding copy_into
  copy_into-early rb dst w size le e amount = ground (
    arith,
    le,
    copy-full dst (take w rb.slots) (omega (arith, length-take w rb.slots, e, amount, le)),
  )

  copy-parts :
      (dst slots : List Float) (size turn : ℕ)
      → turn < size
      → length slots ≡ size
      → length dst ≡ size
      → (let k = size - turn in
          let first = copy dst (take k (drop turn slots)) in
          if ltb k size then take k first ++ copy (drop k first) (take (size - k) slots) else first)
        ≡ drop turn slots ++ take turn slots
  copy-parts dst slots size turn lt e amount =
      let behind = drop turn slots in
      let tail : size - turn ≡ length behind = omega (arith, length-drop turn slots, e) in
      let whole : take (size - turn) behind ≡ behind =
        take-all (size - turn) behind (omega (arith, tail)) in
      elim (Bool-cases (ltb (size - turn) size)) [
        | inl more ↦
            let parts =
              copy-twice dst behind (take turn slots)
                (omega (arith, tail, amount, length-take turn slots, e, lt)) in
            let rest : size - (size - turn) ≡ turn = omega (arith, lt) in
            rw (more, whole, rest, tail) parts
        | inr all ↦
            let at_front : turn ≡ 0 = omega (arith, ltb_false→le _ _ all, lt) in
            rw (all, whole)
              (copy-full dst behind (omega (arith, tail, amount, ltb_false→le _ _ all, lt))
                ∙ sym (append-nil behind)
                ∙ ap (λ k. behind ++ take k slots) {x = 0} (sym at_front))
      ]

  copy_into-late :
      (rb : RingBuffer Float) (dst : List Float) (w size : ℕ)
      → size < w
      → 0 < size
      → length rb.slots ≡ size
      → length dst ≡ size
      → copy_into rb dst w size size ≡ drop (w % size) rb.slots ++ take (w % size) rb.slots
  unfolding copy_into
  copy_into-late rb dst w size lt room e amount =
      let full : leb w size ≡ false = ground (arith, lt) in
      let tail : (if ltb size (size - turn) then size else size - turn) ≡ size - turn =
        ground (arith, before) in
      rw (full, tail) (copy-parts dst rb.slots size turn before e amount)
    where
      turn : ℕ
      turn = w % size

      before : turn < size
      before = mod-lt w room

  copy_into-lasts :
      (rb : RingBuffer Float) (dst : List Float) (size n : ℕ) (h : List Float)
      → IsAfter rb size h
      → n ≡ min (length h) size
      → length dst ≡ n
      → copy_into rb dst (length h) size n ≡ drop (length h - size) h
  copy_into-lasts rb dst size n h a e amount = elim (Bool-cases (ltb (length h) size)) [
    | inl more ↦
        let lt = ltb→lt _ _ more in
        let all : n ≡ length h = omega (arith, e, lt) in
        ap (copy_into rb dst (length h) size) all
        ∙ copy_into-early rb dst (length h) size (omega (arith, lt)) a.amount (amount ∙ all)
        ∙ take-early rb.slots h a.holds (omega (arith, lt, a.amount))
        ∙ ap (λ k. drop k h) {x = 0} (omega (arith, lt))
    | inr full ↦
        let le = ltb_false→le _ _ full in
        let all : n ≡ size = omega (arith, e, le) in
        let last =
          subst
            (λ k.
              drop (length h % k) rb.slots ++ take (length h % k) rb.slots ≡ drop (length h - k) h)
            a.amount (drop-late rb.slots h a.holds (omega (arith, le, a.amount))) in
        ap (copy_into rb dst (length h) size) all ∙ elim (Bool-cases (ltb size (length h))) [
          | inl lt ↦
              copy_into-late rb dst (length h) size (ltb→lt _ _ lt) a.room a.amount (amount ∙ all)
              ∙ last
          | inr same ↦
              let once : size ≡ length h = omega (arith, le, ltb_false→le _ _ same) in
              let turn : length h % size ≡ 0 = ap (λ k. k % size) (sym once) ∙ mod_self size in
              ap (copy_into rb dst (length h) size) once
              ∙ copy_into-early rb dst (length h) size (omega (arith, once)) a.amount
                  (amount ∙ all ∙ once)
              ∙ take-all (length h) rb.slots (omega (arith, once, a.amount))
              ∙ sym (append-nil rb.slots)
              ∙ ap (λ k. drop k rb.slots ++ take k rb.slots) (sym turn)
              ∙ last
        ]
  ]

  values-IsAfter :
      (z : Float) (rb : RingBuffer Float) (size : ℕ) (h : List Float)
      → IsAfter rb size h
      → values z rb ≡ drop (length h - size) h
  unfolding values copy_into
  values-IsAfter z rb size [] a = let all : 0 - size ≡ 0 = omega arith in rw (a.count, all) refl
  values-IsAfter z rb size (x ∷ h) a =
      let w = length (x ∷ h) in
      let n : (if ltb size w then size else w) ≡ min w size = ground arith in
      let test : (w == 0) ≡ false = ground arith in
      rw (a.count, a.amount, n, test)
        (copy_into-lasts rb (replicate (min w size) z) size (min w size) (x ∷ h) a refl
          (length-replicate (min w size) z))

  pub values_into-IsAfter :
      (rb : RingBuffer Float) (dst : List Float) (size : ℕ) (h : List Float)
      → IsAfter rb size h
      → size ≤ length dst
      → values_into rb dst
        ≡ (min (length h) size, drop (length h - size) h ++ drop (min (length h) size) dst)
  unfolding values_into copy_into
  values_into-IsAfter rb dst size [] a le =
      let all : 0 - size ≡ 0 = omega arith in
      let none_there : min 0 size ≡ 0 = omega arith in rw (a.count, all, none_there) refl
  values_into-IsAfter rb dst size (x ∷ h) a le =
      let w = length (x ∷ h) in
      let m : (if ltb size w then size else w) ≡ min w size = ground arith in
      let n : (if ltb (length dst) (min w size) then length dst else min w size) ≡ min w size =
        ground (arith, le) in
      let test : (w == 0) ≡ false = ground arith in
      let amount : length (take (min w size) dst) ≡ min w size =
        omega (arith, length-take (min w size) dst, le) in
      rw (a.count, a.amount, m, n, test)
        (ap (λ t. (min w size, t ++ drop (min w size) dst))
          (copy_into-lasts rb (take (min w size) dst) size (min w size) (x ∷ h) a refl amount))

  -- Let values be pushed to a new `RingBuffer` of positive size. Then `Values` returns the last of
  -- them, as many as the size or all, in the order of the pushes, and `ValuesInto` puts the same
  -- values at the front of any destination that is as long as the ring or longer, leaves the rest of
  -- it, and returns their number.
  pub values-push_all :
      (z : Float) (size : ℕ) (vs dst : List Float)
      → 0 < size
      → size ≤ length dst
      → let rb = push_all (new_ring_buffer z size) vs in
        (values z rb ≡ drop (length vs - size) vs)
        × (values_into rb dst
            ≡ (min (length vs) size, values z rb ++ drop (min (length vs) size) dst))
  values-push_all z size vs dst room le =
      let after = push_all-IsAfter vs (new_ring_buffer z size) size [] (new-IsAfter z size room) in
      let rb = push_all (new_ring_buffer z size) vs in
      let lasts = values-IsAfter z rb size vs after in
      (
        lasts,
        values_into-IsAfter rb dst size vs after le
            ∙ ap (λ t. (min (length vs) size, t ++ drop (min (length vs) size) dst)) (sym lasts),
      )
