-- ===== src/EntryRing/Queue.antt =====
-- What `entryRing` promises: a queue of entries, oldest first, that holds `cap` of them at most and
-- drops the oldest to make room (`cap` 0 is no limit).
use nya_queue.Prelude.{
  ℕ, ◌-◌, ◌||◌, Option, none, some, List, [], ◌∷◌, ◌++◌, ltb, ◌==◌, if◌then◌else◌, length, drop,
}
use nya_queue.EntryRing.{PendingEntry}

abbrev pub Queue : Type 0
Queue = List PendingEntry

-- To put `e` in the place of the oldest.
unfoldable pub displace : Queue → PendingEntry → Option PendingEntry × Queue
displace [] e = (none, e ∷ [])
displace (x ∷ q) e = (some x, q ++ (e ∷ []))

unfoldable pub push : ℕ → Queue → PendingEntry → Option PendingEntry × Queue
unfolding displace
push cap q e = if cap == 0 || ltb (length q) cap then (none, q ++ (e ∷ [])) else displace q e

unfoldable pub pop : Queue → Option PendingEntry × Queue
pop [] = (none, [])
pop (x ∷ q) = (some x, q)

unfoldable pub peek : Queue → Option PendingEntry
peek [] = none
peek (x ∷ q) = some x

-- The newest `cap` of the entries.
unfoldable pub newest : ℕ → List PendingEntry → Queue
newest cap es = if cap == 0 then es else drop (length es - cap) es
