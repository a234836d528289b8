-- ===== src/EntryRing/Client.antt =====
-- Sequences of calls of `entryRing`, and what the caller sees of each.
use nya_queue.Prelude.{ℕ, ◌≡◌, refl, ap₂, Option, none, List, [], ◌∷◌}
use nya_queue.EntryRing.{
  PendingEntry, EntryRing, push_back, pop_front, peek_front, linearize, reset_from,
}
use nya_queue.EntryRing.Queue
use nya_queue.EntryRing.Bounds.{
  IsValid, push_back-IsValid, pop_front-IsValid, reset_from-IsValid, cap-push_back, cap-pop_front,
  cap-reset_from,
}
use nya_queue.EntryRing.Refine.{
  push_back_refines, pop_front_refines, peek_front_refines, reset_from_refines,
}

pub data Call : Type 0 where
  push : PendingEntry → Call
  pop : Call
  peek : Call
  reset : List PendingEntry → Call

-- The entry that each call hands back, if any: the evicted, the oldest.
unfoldable pub run : EntryRing → List Call → List (Option PendingEntry)
run r [] = []
run r (push e ∷ cs) = let (out, r') = push_back r e in out ∷ run r' cs
run r (pop ∷ cs) = let (out, r') = pop_front r in out ∷ run r' cs
run r (peek ∷ cs) = peek_front r ∷ run r cs
run r (reset es ∷ cs) = none ∷ run (reset_from r es) cs

-- The same calls on the bounded queue.
unfoldable pub run_queue : ℕ → Queue.Queue → List Call → List (Option PendingEntry)
run_queue cap q [] = []
run_queue cap q (push e ∷ cs) = let (out, q') = Queue.push cap q e in out ∷ run_queue cap q' cs
run_queue cap q (pop ∷ cs) = let (out, q') = Queue.pop q in out ∷ run_queue cap q' cs
run_queue cap q (peek ∷ cs) = Queue.peek q ∷ run_queue cap q cs
run_queue cap q (reset es ∷ cs) = none ∷ run_queue cap (Queue.newest cap es) cs

-- Let a ring satisfy its invariant: its head and its size lie within the buffer, and the buffer
-- within the capacity, if there is one. Then no sequence of calls (push, pop, peek, reset) tells
-- it from the queue of its entries that evicts the oldest at the capacity.
pub run_refines :
    (cs : List Call) (r : EntryRing) → IsValid r → run r cs ≡ run_queue r.cap (linearize r) cs
unfolding run run_queue
run_refines [] r v = refl
run_refines (push e ∷ cs) r v =
    rw (run_refines cs _ (push_back-IsValid r e v), ← push_back_refines r e v, cap-push_back)
run_refines (pop ∷ cs) r v =
    rw (run_refines cs _ (pop_front-IsValid r v), ← pop_front_refines r v, cap-pop_front)
run_refines (peek ∷ cs) r v = ap₂ ◌∷◌ (peek_front_refines r v) (run_refines cs r v)
run_refines (reset es ∷ cs) r v =
    rw (run_refines cs _ (reset_from-IsValid r es v), reset_from_refines, cap-reset_from)
