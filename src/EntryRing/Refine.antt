-- ===== src/EntryRing/Refine.antt =====
-- A valid `entryRing` behaves as the bounded queue of the entries that `linearize` returns.
use nya_queue.Prelude.{
  ℕ, suc, ◌⊎◌, inl, inr, none, some, ◌+◌, ◌-◌, ◌%◌, ◌≤◌, ◌<◌, ◌≡◌, refl, sym, ap, ap₂, ◌∙◌, List,
  [], ◌∷◌, ◌++◌, arith, length, get_or, set, take, drop, take-append, length-append,
  length-replicate, replicate, copy-eq,
}
use native.Mathlib.Nat.{mod-eq_of_lt, add-zero}
use nya_queue.EntryRing.{
  PendingEntry, EntryRing, zero_entry, grow, push_slot, push_back, pop_front, peek_front, linearize,
  clear_from, truncated, reset_from, make_room, new_cap,
}
use nya_queue.EntryRing.Queue
use nya_queue.EntryRing.Slots.{slots, length-slots, slots-drop, linearize-slots, copy_out-slots}
use nya_queue.EntryRing.Moves.{slots_extend, slots_advance, slots_rotate}
use nya_queue.EntryRing.Bounds.{IsValid, grow_lem, new_cap_bounds, length-make_room}

pub length-linearize : (r : EntryRing) → length (linearize r) ≡ r.size
length-linearize r = ap length (linearize-slots r) ∙ length-slots r.buf r.head 0 r.size

-- The queue of a ring that is not empty begins with the entry at `head`.
linearize-cons :
    (r : EntryRing) (n : ℕ)
    → IsValid r
    → r.size ≡ suc n
    → linearize r ≡ get_or r.buf r.head zero_entry ∷ slots r.buf r.head 1 n
unfolding slots
linearize-cons r n v e =
    linearize-slots r
    ∙ ap (slots r.buf r.head 0) e
    ∙ ap (λ k. get_or r.buf k zero_entry ∷ slots r.buf r.head 1 n)
        (ap (λ k. k % length r.buf) (add-zero r.head) ∙ mod-eq_of_lt (omega arith))

linearize-nil : (r : EntryRing) → r.size ≡ 0 → linearize r ≡ []
unfolding slots
linearize-nil r e = linearize-slots r ∙ ap (slots r.buf r.head 0) e

push_slot-snoc :
    (r : EntryRing) (e : PendingEntry)
    → IsValid r
    → r.size < length r.buf
    → linearize (push_slot r e) ≡ linearize r ++ (e ∷ [])
unfolding push_slot
push_slot-snoc r e v room =
    linearize-slots _
    ∙ ap (slots (set r.buf ((r.head + r.size) % length r.buf) e) r.head 0) (omega arith)
    ∙ slots_extend r.buf e r.head r.size (omega arith) room
    ∙ ap (λ q. q ++ (e ∷ [])) (sym (linearize-slots r))

grow-linearize : (r : EntryRing) → IsValid r → r.size ≤ new_cap r → linearize (grow r) ≡ linearize r
unfolding grow
grow-linearize r v room =
    linearize-slots _
    ∙ ap (λ b. slots b 0 0 r.size) (copy_out-slots [] _ r.buf r.head r.size (omega (arith, fresh)))
    ∙ slots-drop [] (old ++ rest) r.size
        (omega (arith, length-append old rest, length-slots r.buf r.head 0 r.size))
    ∙ ap (λ k. take k (old ++ rest)) (sym (length-slots r.buf r.head 0 r.size))
    ∙ take-append old rest
    ∙ sym (linearize-slots r)
  where
    old : List PendingEntry
    old = slots r.buf r.head 0 r.size

    rest : List PendingEntry
    rest = drop r.size (replicate (new_cap r) zero_entry)

    fresh : length (replicate (new_cap r) zero_entry) ≡ new_cap r
    fresh = length-replicate (new_cap r) zero_entry

-- In a full ring the new entry takes the place of the oldest.
displace_lem :
    (r : EntryRing) (e : PendingEntry) (n : ℕ)
    → IsValid r
    → r.size ≡ suc n
    → r.cap ≡ suc n
    → linearize (record r { buf = set r.buf r.head e; head = (r.head + 1) % r.cap })
      ≡ slots r.buf r.head 1 n ++ (e ∷ [])
displace_lem r e n v hs hc =
    linearize-slots _
    ∙ ap₂ (λ m k. slots (set r.buf r.head e) ((r.head + 1) % m) 0 k) (omega arith) hs
    ∙ slots_rotate r.buf e r.head n (omega arith) (omega arith)

pop_lem :
    (r : EntryRing) (n : ℕ)
    → IsValid r
    → r.size ≡ suc n
    → linearize (record r {
      buf = set r.buf r.head zero_entry;
      head = (r.head + 1) % length r.buf;
      size = n;
    })
      ≡ slots r.buf r.head 1 n
pop_lem r n v e =
    linearize-slots _ ∙ slots_advance r.buf zero_entry r.head n (omega arith) (omega arith)

-- `pushBack` evicts what the bounded queue evicts, and leaves the ring holding its queue.
pub push_back_refines :
    (r : EntryRing) (e : PendingEntry)
    → IsValid r
    → let (out, r') = push_back r e in (out, linearize r') ≡ Queue.push r.cap (linearize r) e
unfolding push_back Queue.push
push_back_refines r e v = ground (
  arith,
  length-linearize r,
  push_slot-snoc r e v,
  grow_lem r v,
  new_cap_bounds r,
  grow-linearize r v,
  push_slot-snoc (grow r) e,
  linearize-cons r (r.size - 1) v,
  displace_lem r e (r.size - 1) v,
)

-- `popFront` returns the oldest entry, and leaves the rest.
pub pop_front_refines :
    (r : EntryRing)
    → IsValid r
    → let (out, r') = pop_front r in (out, linearize r') ≡ Queue.pop (linearize r)
unfolding pop_front Queue.pop
pop_front_refines r v =
    ground (arith, linearize-nil r, linearize-cons r (r.size - 1) v, pop_lem r (r.size - 1) v)

-- `peekFront` returns the oldest entry.
pub peek_front_refines : (r : EntryRing) → IsValid r → peek_front r ≡ Queue.peek (linearize r)
unfolding peek_front Queue.peek
peek_front_refines r v = ground (arith, linearize-nil r, linearize-cons r (r.size - 1) v)

clear_from-append :
    (kept rest : List PendingEntry)
    → clear_from (kept ++ rest) (length kept) ≡ kept ++ clear_from rest 0
unfolding clear_from
clear_from-append [] rest = refl
clear_from-append (x ∷ kept) rest = ap (λ t. x ∷ t) (clear_from-append kept rest)

drop-zero : (n : ℕ) (es : List PendingEntry) → n ≡ 0 → drop n es ≡ es
drop-zero n es e = rw e

truncated-newest : (cap : ℕ) (es : List PendingEntry) → truncated cap es ≡ Queue.newest cap es
unfolding truncated Queue.newest
truncated-newest cap es = ground (arith, drop-zero (length es - cap) es)

-- `resetFrom` leaves the newest of the given entries, as many as the capacity allows.
pub reset_from_refines :
    (r : EntryRing) (es : List PendingEntry) → linearize (reset_from r es) ≡ Queue.newest r.cap es
unfolding reset_from
reset_from_refines r es =
    linearize-slots _
    ∙ ap (λ b. slots (clear_from b need) 0 0 need)
        (copy-eq (make_room r.buf need) kept (omega (arith, length-make_room r.buf need)))
    ∙ ap (λ b. slots b 0 0 need) (clear_from-append kept rest)
    ∙ slots-drop [] (kept ++ clear_from rest 0) need
        (omega (arith, length-append kept (clear_from rest 0)))
    ∙ take-append kept (clear_from rest 0)
    ∙ truncated-newest r.cap es
  where
    kept : List PendingEntry
    kept = truncated r.cap es

    need : ℕ
    need = length kept

    rest : List PendingEntry
    rest = drop need (make_room r.buf need)

-- What `popFront` may do to a valid ring, by the queue that it holds.
abbrev pub PopCase : EntryRing → Type 0
PopCase r =
    ((pop_front r).0 ≡ none) × (linearize r ≡ [])
    ⊎ ((e : PendingEntry) × (rest : Queue.Queue) × ((pop_front r).0 ≡ some e)
        × (linearize r ≡ e ∷ rest)
        × (linearize (pop_front r).1 ≡ rest))

pub pop_front_cases : (r : EntryRing) → IsValid r → PopCase r
unfolding Queue.pop
pop_front_cases r v = go (linearize r) refl (pop_front_refines r v)
  where
    go :
        (q : Queue.Queue)
        → linearize r ≡ q
        → ((pop_front r).0, linearize (pop_front r).1) ≡ Queue.pop (linearize r)
        → PopCase r
    go [] e h = inl (ground arith, e)
    go (x ∷ q) e h = inr (x, q, ground arith, e, ground arith)
