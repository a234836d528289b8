-- ===== src/EntryRing/Moves.antt =====
-- How the entries of a window change when `entryRing` writes a slot and moves its head.
use nya_queue.Prelude.{
  ℕ, suc, ◌+◌, ◌%◌, ◌≤◌, ◌<◌, ◌≡◌, sym, ap, ap₂, ◌∙◌, List, [], ◌∷◌, ◌++◌, arith, length, set,
  length-set, get_or-set_self,
}
use native.Mathlib.Nat.{mod-add-mod, mod-eq_of_lt, add-zero, zero-add}
use nya_queue.EntryRing.{PendingEntry, zero_entry}
use nya_queue.EntryRing.Slots.{
  slots, slots-snoc, slots_shift, slots-set, slots-set_before, wrap_lem,
}

module _ (buf : List PendingEntry) (e : PendingEntry) (head n : ℕ) (hh : head < length buf) where
  turn_zero : (head + 0) % length buf ≡ head
  turn_zero = rw add-zero (mod-eq_of_lt hh)

  turn_whole : (head + length buf) % length buf ≡ head
  turn_whole = ground (arith, wrap_lem (head + length buf) (length buf) (omega arith))

  -- Writing just behind a window extends it.
  pub slots_extend :
      n < length buf
      → slots (set buf ((head + n) % length buf) e) head 0 (suc n) ≡ slots buf head 0 n ++ (e ∷ [])
  slots_extend room =
      slots-snoc _ head 0 n
      ∙ ap₂ (λ xs x. xs ++ (x ∷ [])) (slots-set buf e head 0 n n hh (omega arith) room)
          (rw (length-set, zero-add) (get_or-set_self buf _ e zero_entry (omega arith)))

  -- The head is overwritten and moves on: the window loses its first entry.
  pub slots_advance :
      suc n ≤ length buf → slots (set buf head e) ((head + 1) % length buf) 0 n ≡ slots buf head 1 n
  slots_advance room =
      ap₂ (λ k m. slots (set buf k e) ((head + 1) % m) 0 n) (sym turn_zero)
        (sym (length-set buf _ e))
      ∙ slots_shift _ head 0 n
      ∙ ap (λ k. slots (set buf ((head + 0) % length buf) e) head k n) (omega arith)
      ∙ slots-set_before buf e head 1 n 0 hh (omega arith) (omega arith)

  -- In a window over the whole buffer the new entry becomes the last.
  pub slots_rotate :
      length buf ≡ suc n
      → slots (set buf head e) ((head + 1) % length buf) 0 (suc n) ≡ slots buf head 1 n ++ (e ∷ [])
  slots_rotate full =
      slots-snoc _ _ 0 n
      ∙ ap₂ (λ xs x. xs ++ (x ∷ [])) (slots_advance (omega arith))
          (rw (length-set, back_at_head) (get_or-set_self buf head e zero_entry hh))
    where
      back_at_head : ((head + 1) % length buf + (0 + n)) % length buf ≡ head
      back_at_head =
          mod-add-mod (head + 1) (length buf) (0 + n)
          ∙ ap (λ k. k % length buf) (omega arith)
          ∙ turn_whole
