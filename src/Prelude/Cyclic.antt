-- ===== src/Prelude/Cyclic.antt =====
-- A list that is written in turn, from its front again after its last: what it holds after a history
-- of writes.
use nya_queue.Prelude.{
  ℕ, zero, suc, ◌+◌, ◌-◌, ◌%◌, ◌≤◌, ◌<◌, ◌≡◌, refl, sym, ap, ap₂, ◌∙◌, subst, inl, inr, Bool-cases,
  List, [], ◌∷◌, ◌++◌, arith, length, set, take, drop, ltb, ltb→lt, ltb_false→le, some, get_elem?,
  length-append, length-snoc, set-append, take-append, drop-append, append-nil, append_assoc,
  length-set,
}
use nya_queue.Prelude.Elems.{get_elem?-append_left, get_elem?-append_right, get_elem?-lt}
use native.Mathlib.Nat.{mod-add-mod, mod-eq_of_lt, mod_self}

-- The remainder goes on by one, or back to 0.
turn-suc :
    (w n s : ℕ)
    → 0 < n
    → s ≡ w % n
    → (suc s < n → suc s ≡ (w + 1) % n) × (suc s ≡ n → 0 ≡ (w + 1) % n)
turn-suc w n s pos e =
    (λ lt. sym (mod-eq_of_lt lt) ∙ on, λ last. sym (ap (λ k. k % n) last ∙ mod_self n) ∙ on)
  where
    on : suc s % n ≡ (w + 1) % n
    on = ap (λ k. k % n) {x = suc s} {y = w % n + 1} (omega (arith, e)) ∙ mod-add-mod w n 1

module _ {ℓ} {A : Type ℓ} where
  -- The write number `w`.
  abbrev pub write_turn : List A → ℕ → A → List A
  write_turn slots w v = set slots (w % length slots) v

  -- After the writes `h`, in their order.
  pub record Holds (slots : List A) (h : List A) : Type ℓ where
    pub front : List A
    pub back : List A
    pub split : slots ≡ front ++ back
    pub turn : length front ≡ length h % length slots
    pub room : 0 < length back
    pub early : length h < length slots → front ≡ h
    pub late : length slots ≤ length h → back ++ front ≡ drop (length h - length slots) h

  drop-snoc :
      (k : ℕ) (h : List A) (v : A)
      → k < length h
      → drop (suc k) (h ++ (v ∷ [])) ≡ drop 1 (drop k h) ++ (v ∷ [])
  drop-snoc k [] v lt = absurd (omega arith)
  drop-snoc zero (x ∷ h) v lt = refl
  drop-snoc (suc k) (x ∷ h) v lt = drop-snoc k h v (omega arith)

  pub Holds-nil : (slots : List A) → 0 < length slots → Holds slots []
  Holds-nil slots pos = record {
    front = [];
    back = slots;
    split = refl;
    turn = sym (mod-eq_of_lt pos);
    room = pos;
    early = λ lt. refl;
    late = λ le. absurd (omega arith);
  }

  abbrev Pushed : List A → List A → A → Type ℓ
  Pushed slots h v = Holds (write_turn slots (length h) v) (h ++ (v ∷ []))

  length-split :
      (front : List A) (x : A) (b : List A)
      → length (front ++ (x ∷ b)) ≡ length front + suc (length b)
  length-split front x b = length-append front (x ∷ b)

  -- The write at the last of the front part.
  write_turn-split :
      (front : List A) (x : A) (b h : List A) (v : A)
      → length front ≡ length h % length (front ++ (x ∷ b))
      → write_turn (front ++ (x ∷ b)) (length h) v ≡ (front ++ (v ∷ [])) ++ b
  write_turn-split front x b h v turn =
      ap (λ i. set (front ++ (x ∷ b)) i v) (sym turn) ∙ set-append front x v b

  -- The parts after a write, for the fields that depend on the lengths only.
  pushed :
      (slots h front' back' : List A) (v : A)
      → write_turn slots (length h) v ≡ front' ++ back'
      → length front' ≡ (length h + 1) % length slots
      → 0 < length back'
      → (length h + 1 < length slots → front' ≡ h ++ (v ∷ []))
      → (length slots ≤ length h + 1
          → back' ++ front' ≡ drop (length h + 1 - length slots) (h ++ (v ∷ [])))
      → Pushed slots h v
  pushed slots h front' back' v split turn room early late = record {
    front = front';
    back = back';
    split = split;
    turn = turn ∙ ap₂ (λ a b. a % b) (sym (length-snoc h v)) (sym same);
    room = room;
    early = λ lt. early (omega (arith, lt, same, length-snoc h v));
    late = λ le.
        late (omega (arith, le, same, length-snoc h v))
        ∙ ap₂ (λ a b. drop (a - b) (h ++ (v ∷ []))) (sym (length-snoc h v)) (sym same);
  }
    where
      same : length (write_turn slots (length h) v) ≡ length slots
      same = length-set slots (length h % length slots) v

  -- What is kept is one element less, and the new one.
  late-snoc :
      (n : ℕ) (x : A) (rest h : List A) (v : A)
      → 0 < n
      → n ≤ length h
      → x ∷ rest ≡ drop (length h - n) h
      → rest ++ (v ∷ []) ≡ drop (length h + 1 - n) (h ++ (v ∷ []))
  late-snoc n x rest h v pos le e =
      ap (λ t. drop 1 t ++ (v ∷ [])) e
      ∙ sym (drop-snoc (length h - n) h v (omega arith))
      ∙ ap (λ k. drop k (h ++ (v ∷ []))) {x = suc (length h - n)} (omega arith)

  -- There is room behind the write.
  push_on :
      (front : List A) (x y : A) (b h : List A) (v : A)
      → length front ≡ length h % length (front ++ (x ∷ y ∷ b))
      → (length h < length (front ++ (x ∷ y ∷ b)) → front ≡ h)
      → (length (front ++ (x ∷ y ∷ b)) ≤ length h
          → x ∷ y ∷ (b ++ front) ≡ drop (length h - length (front ++ (x ∷ y ∷ b))) h)
      → Pushed (front ++ (x ∷ y ∷ b)) h v
  push_on front x y b h v turn early late =
      pushed slots h (front ++ (v ∷ [])) (y ∷ b) v (write_turn-split front x (y ∷ b) h v turn)
        (length-snoc front v
          ∙ omega (
            arith,
            (turn-suc (length h) (length slots) (length front) (omega (arith, amount)) turn).0
                (omega (arith, amount)),
          ))
        (omega arith) (λ lt. ap (λ t. t ++ (v ∷ [])) (early (omega (arith, lt))))
        (λ le. elim (Bool-cases (ltb (length h) (length slots))) [
          | inl lt ↦
              absurd (omega (arith, amount, ap length (early (ltb→lt _ _ lt)), ltb→lt _ _ lt, le))
          | inr ge ↦
              ap (λ t. y ∷ t) (sym (append_assoc b front (v ∷ [])))
              ∙ late-snoc (length slots) x (y ∷ (b ++ front)) h v (omega (arith, amount))
                  (ltb_false→le _ _ ge) (late (ltb_false→le _ _ ge))
        ])
    where
      slots : List A
      slots = front ++ (x ∷ y ∷ b)

      amount : length slots ≡ length front + suc (suc (length b))
      amount = length-split front x (y ∷ b)

  -- The write was the last before the front again.
  push_round :
      (front : List A) (x : A) (h : List A) (v : A)
      → length front ≡ length h % length (front ++ (x ∷ []))
      → (length h < length (front ++ (x ∷ [])) → front ≡ h)
      → (length (front ++ (x ∷ [])) ≤ length h
          → x ∷ front ≡ drop (length h - length (front ++ (x ∷ []))) h)
      → Pushed (front ++ (x ∷ [])) h v
  push_round front x h v turn early late =
      pushed slots h [] (front ++ (v ∷ [])) v
        (write_turn-split front x [] h v turn ∙ append-nil (front ++ (v ∷ [])))
        ((turn-suc (length h) (length slots) (length front) (omega (arith, amount)) turn).1
          (omega (arith, amount)))
        (omega (arith, length-snoc front v))
        (λ lt. absurd (omega (arith, lt, amount, ap length (early (omega (arith, lt))))))
        (λ le. elim (Bool-cases (ltb (length h) (length slots))) [
          | inl lt ↦
              let same = early (ltb→lt _ _ lt) in
              append-nil (front ++ (v ∷ []))
              ∙ ap (λ t. t ++ (v ∷ [])) same
              ∙ ap (λ k. drop k (h ++ (v ∷ []))) {x = 0} (omega (arith, amount, ap length same))
          | inr ge ↦
              append-nil (front ++ (v ∷ []))
              ∙ late-snoc (length slots) x front h v (omega (arith, amount)) (ltb_false→le _ _ ge)
                  (late (ltb_false→le _ _ ge))
        ])
    where
      slots : List A
      slots = front ++ (x ∷ [])

      amount : length slots ≡ length front + 1
      amount = length-split front x []

  push_at :
      (front back h : List A) (v : A)
      → 0 < length back
      → length front ≡ length h % length (front ++ back)
      → (length h < length (front ++ back) → front ≡ h)
      → (length (front ++ back) ≤ length h
          → back ++ front ≡ drop (length h - length (front ++ back)) h)
      → Pushed (front ++ back) h v
  push_at front [] h v room turn early late = absurd (omega (arith, room))
  push_at front (x ∷ []) h v room turn early late = push_round front x h v turn early late
  push_at front (x ∷ y ∷ b) h v room turn early late = push_on front x y b h v turn early late

  -- A write goes behind the history.
  pub Holds-push : (slots h : List A) (v : A) → Holds slots h → Pushed slots h v
  Holds-push slots h v s =
      subst (λ t. Pushed t h v) (sym s.split)
        (push_at s.front s.back h v s.room (s.turn ∙ ap (λ t. length h % length t) s.split)
          (λ lt. s.early (omega (arith, ap length s.split, lt)))
          (λ le.
            s.late (omega (arith, ap length s.split, le))
            ∙ ap (λ t. drop (length h - length t) h) s.split))

  take-front : (front back : List A) (n : ℕ) → n ≡ length front → take n (front ++ back) ≡ front
  take-front front back n e = ap (λ k. take k (front ++ back)) e ∙ take-append front back

  drop-front : (front back : List A) (n : ℕ) → n ≡ length front → drop n (front ++ back) ≡ back
  drop-front front back n e = ap (λ k. drop k (front ++ back)) e ∙ drop-append front back

  -- Before the list is full, the history is its beginning.
  pub take-early :
      (slots h : List A) → Holds slots h → length h < length slots → take (length h) slots ≡ h
  take-early slots h s lt =
      ap (take (length h)) s.split
      ∙ take-front s.front s.back (length h) (ap length (sym (s.early lt)))
      ∙ s.early lt

  -- From then on, the last writes are what is behind the turn and then what is before it.
  pub drop-late :
      (slots h : List A)
      → Holds slots h
      → length slots ≤ length h
      → drop (length h % length slots) slots ++ take (length h % length slots) slots
        ≡ drop (length h - length slots) h
  drop-late slots h s le =
      ap₂ ◌++◌ (ap (drop turn) s.split ∙ drop-front s.front s.back turn (sym s.turn))
        (ap (take turn) s.split ∙ take-front s.front s.back turn (sym s.turn))
      ∙ s.late le
    where
      turn : ℕ
      turn = length h % length slots

  -- Every slot that was written holds one of the last writes.
  pub slot-recent :
      (slots h : List A) (i : ℕ) (x : A)
      → Holds slots h
      → i < length h
      → get_elem? slots i ≡ some x
      → (j : ℕ) × (get_elem? (drop (length h - length slots) h) j ≡ some x)
  slot-recent slots h i x s lt e = elim (Bool-cases (ltb (length h) (length slots))) [
    | inl more ↦
        let same = s.early (ltb→lt _ _ more) in
        (
          i,
          ap (λ k. get_elem? (drop k h) i) {y = 0} (omega (arith, ltb→lt _ _ more))
              ∙ ap (λ t. get_elem? t i) (sym same)
              ∙ sym (get_elem?-append_left s.front s.back i (omega (arith, lt, ap length same)))
              ∙ found,
        )
    | inr full ↦
        let last = s.late (ltb_false→le _ _ full) in
        elim (Bool-cases (ltb i (length s.front))) [
          | inl before ↦ (
            length s.back + i,
            ap (λ t. get_elem? t (length s.back + i)) (sym last)
                ∙ get_elem?-append_right s.back s.front i
                ∙ sym (get_elem?-append_left s.front s.back i (ltb→lt _ _ before))
                ∙ found,
          )
          | inr behind ↦
              let at : get_elem? s.back (i - length s.front) ≡ some x =
                sym (get_elem?-append_right s.front s.back (i - length s.front))
                ∙ ap (get_elem? (s.front ++ s.back)) (omega (arith, ltb_false→le _ _ behind))
                ∙ found in
              (
                i - length s.front,
                ap (λ t. get_elem? t (i - length s.front)) (sym last)
                    ∙ get_elem?-append_left s.back s.front (i - length s.front)
                        (get_elem?-lt s.back _ x at)
                    ∙ at,
              )
        ]
  ]
    where
      found : get_elem? (s.front ++ s.back) i ≡ some x
      found = ap (λ t. get_elem? t i) (sym s.split) ∙ e
