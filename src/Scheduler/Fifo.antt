-- ===== src/Scheduler/Fifo.antt =====
-- `FIFO` reads the messages of a partition in the order of their offsets.
use nya_queue.Prelude.{
  ℕ, zero, suc, ◌+◌, ◌≤◌, ◌<◌, ◌≡◌, ap, ◌∙◌, subst, Bool-cases, inl, inr, drop-all, some, List, [],
  ◌∷◌, arith, get_elem?, drop, length, ltb,
}
use nya_queue.Prelude.Elems.{some-inj, get_elem?-total}
use nya_queue.Prelude.Words.{mod64}
use nya_queue.Message.{Message}
use nya_queue.Wal.{Wal}
use nya_queue.Partition
use nya_queue.Partition.{Partition}
use nya_queue.Partition.Methods.{high_water_mark, read_message}
use nya_queue.Partition.View.{Serves}
use nya_queue.Scheduler.{ok, err, no_messages, next_fifo}

pub drop-at :
    (xs : List Message) (k : ℕ) (x : Message)
    → get_elem? xs k ≡ some x
    → drop k xs ≡ x ∷ drop (suc k) xs
drop-at [] k x e = cc
drop-at (y ∷ xs) zero x e = ap (λ t. t ∷ xs) (some-inj e)
drop-at (y ∷ xs) (suc k) x e = drop-at xs k x e

module _ (w : Wal) where
  -- The messages of `n` calls of `Next` from an offset on, up to the first error, with the offset
  -- reached and the last result.
  unfoldable pub consume_fifo : ℕ → Partition w.Log → ℕ → List Message
  consume_fifo zero p offset = []
  consume_fifo (suc n) p offset =
      let (out, next) = next_fifo w p offset in
      let rest = consume_fifo n p next in elim out [ ok m ↦ m ∷ rest | err e ↦ [] ]

  pub next_fifo-found :
      (p : Partition w.Log) (offset : ℕ) (m : Message)
      → offset < p.next_offset
      → p.next_offset < mod64
      → read_message w p offset ≡ Partition.ok m
      → next_fifo w p offset ≡ (ok m, offset + 1)
  unfolding next_fifo high_water_mark
  next_fifo-found p offset m lt word e = ground (arith, e)

  pub next_fifo-end :
      (p : Partition w.Log)
      → 0 < p.next_offset
      → p.next_offset < mod64
      → next_fifo w p p.next_offset ≡ (err no_messages, p.next_offset)
  unfolding next_fifo high_water_mark
  next_fifo-end p positive word = ground arith

  -- The messages from the `k`-th on.
  consume_fifo_from :
      (n k : ℕ) (p : Partition w.Log) (first : ℕ) (view : List Message)
      → Serves w p first view
      → 0 < p.next_offset
      → p.next_offset < mod64
      → k ≤ length view
      → length view < k + n
      → consume_fifo n p (first + k) ≡ drop k view
  unfolding consume_fifo
  consume_fifo_from zero k p first view s positive word le lt = absurd (omega arith)
  consume_fifo_from (suc n) k p first view s positive word le lt =
      elim (Bool-cases (ltb k (length view))) [
        | inl more ↦
            let (m, at) = get_elem?-total view k (ground (arith, more)) in
            let found =
              next_fifo-found p (first + k) m (ground (arith, more, s.ends)) word
                (s.reads k m at) in
            ground (
              arith,
              found,
              consume_fifo_from n (k + 1) p first view s positive word (ground (arith, more))
                  (omega arith),
              drop-at view k m at,
              ap (consume_fifo n p) {x = first + k + 1} {y = first + (k + 1)} (omega arith),
            )
        | inr none_left ↦
            let end : first + k ≡ p.next_offset = ground (arith, none_left, s.ends) in
            let stop = ap (next_fifo w p) end ∙ next_fifo-end p positive word in
            ground (arith, stop, drop-all k view (ground (arith, none_left)))
      ]

  -- Let a partition hold some messages from an offset on, up to its next offset, which is
  -- positive and below 2^64. Then a consumer that starts at that offset and calls `Next` of
  -- `FIFO` often enough gets exactly these messages in their order, and the call behind the last
  -- finds no messages and leaves the offset.
  pub consume_fifo-Serves :
      (n : ℕ) (p : Partition w.Log) (first : ℕ) (view : List Message)
      → Serves w p first view
      → 0 < p.next_offset
      → p.next_offset < mod64
      → length view < n
      → (consume_fifo n p first ≡ view)
        × (next_fifo w p (first + length view) ≡ (err no_messages, first + length view))
  consume_fifo-Serves n p first view s positive word lt = (
    ap (consume_fifo n p) {y = first + 0} (omega arith)
        ∙ consume_fifo_from n 0 p first view s positive word (omega arith) (omega arith),
    subst (λ o. next_fifo w p o ≡ (err no_messages, o)) s.ends (next_fifo-end p positive word),
  )
