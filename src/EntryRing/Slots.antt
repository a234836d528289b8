-- ===== src/EntryRing/Slots.antt =====
-- What the index arithmetic `buf[(head+i)%len(buf)]` of `entryRing` reads and writes.
use nya_queue.Prelude.{
  ℕ, zero, suc, ◌+◌, ◌-◌, ◌%◌, ◌≤◌, ◌<◌, ◌≡◌, ◌≢◌, refl, sym, ap, ap₂, ◌∙◌, subst, List, [], ◌∷◌,
  ◌++◌, arith, length, get_or, set, take, drop, replicate, length-set, length-replicate,
  get_or-set_ne, set-append, get_or-append, snoc_append, length-snoc, length-append, append-nil,
  drop-all, ltb, ltb→lt, ltb_false→le, Bool-cases, inl, inr, if◌then◌else◌,
}
use native.Mathlib.Nat.{mod-add-mod, mod-eq_of_lt, zero-add, mod-eq-sub-mod}
use nya_queue.EntryRing.{PendingEntry, EntryRing, zero_entry, copy_out, linearize}

-- The `n` entries from the `i`-th behind `head` on, going round at the end of the buffer.
unfoldable pub slots : List PendingEntry → ℕ → ℕ → ℕ → List PendingEntry
slots buf head i zero = []
slots buf head i (suc n) =
    get_or buf ((head + i) % length buf) zero_entry ∷ slots buf head (i + 1) n

pub length-slots : (buf : List PendingEntry) (head i n : ℕ) → length (slots buf head i n) ≡ n
unfolding slots
length-slots buf head i zero = refl
length-slots buf head i (suc n) = ap suc (length-slots buf head (i + 1) n)

pub slots-snoc :
    (buf : List PendingEntry) (head i n : ℕ)
    → slots buf head i (suc n)
      ≡ slots buf head i n ++ (get_or buf ((head + (i + n)) % length buf) zero_entry ∷ [])
unfolding slots
slots-snoc buf head i zero =
    ap (λ k. get_or buf ((head + k) % length buf) zero_entry ∷ []) (omega arith)
slots-snoc buf head i (suc n) =
    ap (λ t. get_or buf ((head + i) % length buf) zero_entry ∷ t)
      (slots-snoc buf head (i + 1) n
        ∙ ap
            (λ k.
              slots buf head (i + 1) n ++ (get_or buf ((head + k) % length buf) zero_entry ∷ []))
            (omega arith))

-- Moving the head on by one is reading one further.
pub slots_shift :
    (buf : List PendingEntry) (head i n : ℕ)
    → slots buf ((head + 1) % length buf) i n ≡ slots buf head (i + 1) n
unfolding slots
slots_shift buf head i zero = refl
slots_shift buf head i (suc n) =
    ap₂ ◌∷◌
      (ap (λ k. get_or buf k zero_entry)
        (mod-add-mod (head + 1) (length buf) i ∙ ap (λ k. k % length buf) (omega arith)))
      (slots_shift buf head (i + 1) n)

pub wrap_lem : (x m : ℕ) → x < m + m → x % m ≡ (if ltb x m then x else x - m)
wrap_lem x m h = elim (Bool-cases (ltb x m)) [
  | inl lt ↦ rw lt (mod-eq_of_lt (ltb→lt x m lt))
  | inr ge ↦ rw ge (
      mod-eq-sub-mod (ltb_false→le x m ge)
      ∙ mod-eq_of_lt {n = x - m} {m = m} (omega (arith, ltb_false→le x m ge)))
]

-- Two different places of one turn are different indices.
pub mod-ne : (head i j m : ℕ) → head < m → i < j → j < m → (head + i) % m ≢ (head + j) % m
mod-ne head i j m hh hij hj =
    ground (arith, wrap_lem (head + i) m (omega arith), wrap_lem (head + j) m (omega arith))

-- A write at a place behind the range read changes nothing of it.
pub slots-set :
    (buf : List PendingEntry) (e : PendingEntry) (head i n j : ℕ)
    → head < length buf
    → i + n ≤ j
    → j < length buf
    → slots (set buf ((head + j) % length buf) e) head i n ≡ slots buf head i n
unfolding slots
slots-set buf e head i zero j hh h hj = refl
slots-set buf e head i (suc n) j hh h hj =
    ap₂ ◌∷◌
      (rw length-set (
        get_or-set_ne buf _ _ e zero_entry
          (λ p. mod-ne head i j (length buf) hh (omega arith) hj (sym p))))
      (slots-set buf e head (i + 1) n j hh (omega arith) hj)

-- The same of a place before the range read.
pub slots-set_before :
    (buf : List PendingEntry) (e : PendingEntry) (head i n j : ℕ)
    → head < length buf
    → j < i
    → i + n ≤ length buf
    → slots (set buf ((head + j) % length buf) e) head i n ≡ slots buf head i n
unfolding slots
slots-set_before buf e head i zero j hh h hn = refl
slots-set_before buf e head i (suc n) j hh h hn =
    ap₂ ◌∷◌
      (rw length-set
        (get_or-set_ne buf _ _ e zero_entry (mod-ne head j i (length buf) hh h (omega arith))))
      (slots-set_before buf e head (i + 1) n j hh (omega arith) (omega arith))

-- From the start of the buffer, a range within it is read as it stands.
pub slots-drop :
    (front back : List PendingEntry) (n : ℕ)
    → n ≤ length back
    → slots (front ++ back) 0 (length front) n ≡ take n back
unfolding slots
slots-drop front back zero h = refl
slots-drop front [] (suc n) h = absurd (omega arith)
slots-drop front (x ∷ back) (suc n) h =
    ap₂ ◌∷◌
      (ap (λ k. get_or (front ++ (x ∷ back)) k zero_entry) place
        ∙ get_or-append front x zero_entry back)
      (subst (λ k. slots (front ++ (x ∷ back)) 0 k n ≡ take n back) (length-snoc front x)
        (subst (λ l. slots l 0 (length (front ++ (x ∷ []))) n ≡ take n back)
          (snoc_append front x back) (slots-drop (front ++ (x ∷ [])) back n (omega arith))))
  where
    place : (0 + length front) % length (front ++ (x ∷ back)) ≡ length front
    place = rw zero-add (mod-eq_of_lt (omega (arith, length-append front (x ∷ back))))

-- The loop of `grow` and `linearize` writes the entries read over those at its destination.
pub copy_out-slots :
    (front rest buf : List PendingEntry) (head n : ℕ)
    → n ≤ length rest
    → copy_out (front ++ rest) buf head (length front) n
      ≡ front ++ (slots buf head (length front) n ++ drop n rest)
unfolding copy_out slots
copy_out-slots front rest buf head zero h = refl
copy_out-slots front [] buf head (suc n) h = absurd (omega arith)
copy_out-slots front (x ∷ rest) buf head (suc n) h =
    ap₂ (λ l k. copy_out l buf head k n) (set-append front x v rest) (sym (length-snoc front v))
    ∙ copy_out-slots (front ++ (v ∷ [])) rest buf head n (omega arith)
    ∙ snoc_append front v _
    ∙ ap (λ k. front ++ (v ∷ (slots buf head k n ++ drop n rest))) (length-snoc front v)
  where
    v : PendingEntry
    v = get_or buf ((head + length front) % length buf) zero_entry

-- `linearize` returns the entries from the oldest on.
pub linearize-slots : (r : EntryRing) → linearize r ≡ slots r.buf r.head 0 r.size
unfolding linearize
linearize-slots r =
    copy_out-slots [] (replicate r.size zero_entry) r.buf r.head r.size
      (omega (arith, length-replicate r.size zero_entry))
    ∙ ap (λ t. slots r.buf r.head 0 r.size ++ t)
        (drop-all r.size (replicate r.size zero_entry)
          (omega (arith, length-replicate r.size zero_entry)))
    ∙ append-nil _
