-- ===== src/EntryRing/Bounds.antt =====
-- The representation invariant of `entryRing`: what keeps every index in range.
use nya_queue.Prelude.{
  ℕ, zero, suc, ◌+◌, ◌-◌, ◌%◌, ◌≤◌, ◌<◌, max, min, ◌≡◌, refl, ap, ◌⊎◌, ◌≢◌, none, some, List, [],
  ◌∷◌, arith, length, get_or, set, replicate, copy, length-set, length-replicate, length-copy,
  length-drop, ltb, if◌then◌else◌,
}
use nya_queue.EntryRing.{
  PendingEntry, EntryRing, zero_entry, copy_out, new_cap, grow, push_slot, push_back, pop_front,
  clear_from, truncated, reset_from, make_room,
}

pub record IsValid (r : EntryRing) : Type 0 where
  pub fits : r.size ≤ length r.buf
  pub head_in : r.head < max (length r.buf) 1
  pub capped : (r.cap ≡ 0) ⊎ (length r.buf ≤ r.cap)

pub length-copy_out :
    (dst buf : List PendingEntry) (head i n : ℕ) → length (copy_out dst buf head i n) ≡ length dst
unfolding copy_out
length-copy_out dst buf head i zero = refl
length-copy_out dst buf head i (suc n) = omega (
  arith,
  length-copy_out (set dst i (get_or buf ((head + i) % length buf) zero_entry)) buf head (i + 1) n,
  length-set dst i (get_or buf ((head + i) % length buf) zero_entry),
)

pub length-grow : (r : EntryRing) → length (grow r).buf ≡ new_cap r
unfolding grow
length-grow r = omega (
  arith,
  length-copy_out (replicate (new_cap r) zero_entry) r.buf r.head 0 r.size,
  length-replicate (new_cap r) zero_entry,
)

-- `grow` makes room for the next entry where the capacity does not forbid it.
pub new_cap_bounds :
    (r : EntryRing)
    → (r.cap ≡ 0) ⊎ (r.size < r.cap)
    → r.size ≡ length r.buf
    → (r.size < new_cap r) × ((r.cap ≡ 0) ⊎ (new_cap r ≤ r.cap))
unfolding new_cap
new_cap_bounds r room full = ground arith

-- The indices that `pushBack` writes, that `popFront` and `peekFront` read, and that `grow` and
-- `linearize` read lie in the buffer.
pub in_bounds :
    (r : EntryRing) (i : ℕ)
    → IsValid r
    → i < r.size
    → (r.head < length r.buf) × ((r.head + i) % length r.buf < length r.buf)
in_bounds r i v h = omega arith

pub grow_lem :
    (r : EntryRing)
    → IsValid r
    → (r.cap ≡ 0) ⊎ (r.size < r.cap)
    → r.size ≡ length r.buf
    → IsValid (grow r) × ((grow r).size < length (grow r).buf)
unfolding grow
grow_lem r v room full = ground (arith, new_cap_bounds r room full, length-grow r)

pub push_slot-IsValid :
    (r : EntryRing) (e : PendingEntry) → IsValid r → r.size < length r.buf → IsValid (push_slot r e)
unfolding push_slot
push_slot-IsValid r e v room = ground (arith, length-set r.buf ((r.head + r.size) % length r.buf) e)

pub push_back-IsValid : (r : EntryRing) (e : PendingEntry) → IsValid r → IsValid (push_back r e).1
unfolding push_back
push_back-IsValid r e v = ground (
  arith,
  length-set r.buf r.head e,
  push_slot-IsValid r e v,
  grow_lem r v,
  push_slot-IsValid (grow r) e,
)

pub pop_front-IsValid : (r : EntryRing) → IsValid r → IsValid (pop_front r).1
unfolding pop_front
pop_front-IsValid r v = ground (arith, length-set r.buf r.head zero_entry)

length-clear_from : (xs : List PendingEntry) (n : ℕ) → length (clear_from xs n) ≡ length xs
unfolding clear_from
length-clear_from [] n = refl
length-clear_from (x ∷ xs) zero = ap suc (length-clear_from xs zero)
length-clear_from (x ∷ xs) (suc n) = ap suc (length-clear_from xs n)

pub length-truncated :
    (cap : ℕ) (es : List PendingEntry)
    → length (truncated cap es) ≡ (if ltb 0 cap then min cap (length es) else length es)
unfolding truncated
length-truncated cap es = ground (arith, length-drop (length es - cap) es)

pub length-make_room :
    (buf : List PendingEntry) (need : ℕ) → length (make_room buf need) ≡ max (length buf) need
unfolding make_room
length-make_room buf need = ground (arith, length-replicate need zero_entry)

pub reset_from-IsValid :
    (r : EntryRing) (es : List PendingEntry) → IsValid r → IsValid (reset_from r es)
unfolding reset_from
reset_from-IsValid r es v =
    let kept = truncated r.cap es in
    let need = length kept in
    ground (
      arith,
      length-clear_from (copy (make_room r.buf need) kept) need,
      length-copy (make_room r.buf need) kept,
      length-make_room r.buf need,
      length-truncated r.cap es,
    )

pub cap-push_back : (r : EntryRing) (e : PendingEntry) → (push_back r e).1.cap ≡ r.cap
unfolding push_back push_slot grow
cap-push_back r e = ground arith

pub cap-pop_front : (r : EntryRing) → (pop_front r).1.cap ≡ r.cap
unfolding pop_front
cap-pop_front r = ground arith

pub cap-reset_from : (r : EntryRing) (es : List PendingEntry) → (reset_from r es).cap ≡ r.cap
unfolding reset_from
cap-reset_from r es = refl

pub size-push_back :
    (r : EntryRing) (e : PendingEntry)
    → (push_back r e).1.size ≡ elim (push_back r e).0 [ none ↦ r.size + 1 | some _ ↦ r.size ]
unfolding push_back push_slot grow
size-push_back r e = ground arith

pub size-pop_front : (r : EntryRing) → (pop_front r).1.size ≡ r.size - 1
unfolding pop_front
size-pop_front r = ground arith

-- `popFront` answers exactly where there is an entry.
pub pop_front-ne-none : (r : EntryRing) → 0 < r.size → (pop_front r).0 ≢ none
unfolding pop_front
pop_front-ne-none r h = ground arith

pub pop_front-pos : (r : EntryRing) {e : PendingEntry} → (pop_front r).0 ≡ some e → 0 < r.size
unfolding pop_front
pop_front-pos r h = ground arith
