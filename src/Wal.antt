-- ===== src/Wal.antt =====
-- What the broker uses of github.com/tidwall/wal: a log of byte records with ascending indices.
-- An operation that may fail says whether it succeeded.
pub mod ListLog
use nya_queue.Prelude.{
  ℕ, ◌+◌, ◌≤◌, ◌<◌, ◌≡◌, ◌&&◌, leb, Bool, true, false, Option, none, some, List, [], ◌∷◌, ◌==◌,
  if◌then◌else◌, length,
}

abbrev pub Batch : Type 0
Batch = List (ℕ × List ℕ)

pub record Wal : Type 1 where
  pub Log : Type 0
  pub read : Log → ℕ → Option (List ℕ)
  pub write_batch : Log → Batch → Bool × Log
  pub first_index : Log → Option ℕ
  pub last_index : Log → Option ℕ
  pub truncate_front : Log → ℕ → Bool × Log

-- The record of a batch at an index, if it has one there.
unfoldable pub entry_at : Batch → ℕ → Option (List ℕ)
entry_at [] i = none
entry_at ((j, bytes) ∷ b) i = if i == j then some bytes else entry_at b i

-- The indices of a batch follow one another from `i` on.
abbrev pub RunsFrom : ℕ → Batch → Type 0
RunsFrom i [] = Unit {0}
RunsFrom i ((j, _) ∷ b) = (j ≡ i) × RunsFrom (i + 1) b

-- What the documentation promises: a batch that is written is read back, and everything else as
-- before.
abbrev pub ReadsBack : Wal → Type 0
ReadsBack w =
    (log log' : w.Log) (b : Batch) (i : ℕ)
    → w.write_batch log b ≡ (true, log')
    → w.read log' i ≡ elim (entry_at b i) [ some bytes ↦ some bytes | none ↦ w.read log i ]

-- A batch is written only if its indices go on from the last one, which then is the batch's last. One
-- that does not go on is out of order: it is refused, and the log stays. Nothing is said of a write in
-- order that fails.
abbrev pub WritesInOrder : Wal → Type 0
WritesInOrder w =
    (log log' : w.Log) (b : Batch) (done : Bool) (last : ℕ)
    → w.write_batch log b ≡ (done, log')
    → w.last_index log ≡ some last
    → (done ≡ true → RunsFrom (last + 1) b × (w.last_index log' ≡ some (last + length b)))
      × ((RunsFrom (last + 1) b → ⊥) → (done ≡ false) × (w.last_index log' ≡ some last))

-- A log is not truncated at an index that is out of range. When it is truncated, the index becomes the
-- first, the records before it are gone, and those from there on are kept.
abbrev pub Truncates : Wal → Type 0
Truncates w =
    (log : w.Log) (i first last : ℕ)
    → w.first_index log ≡ some first
    → w.last_index log ≡ some last
    → ((leb first i && leb i last) ≡ false → (w.truncate_front log i).0 ≡ false)
      × ((w.truncate_front log i).0 ≡ true
          → (w.first_index (w.truncate_front log i).1 ≡ some i)
            × ((j : ℕ) → j < i → w.read (w.truncate_front log i).1 j ≡ none)
            × ((j : ℕ) → i ≤ j → w.read (w.truncate_front log i).1 j ≡ w.read log j))

-- The disk does not fail when this log is truncated at an index in range.
abbrev pub TruncatesInRange : (w : Wal) → w.Log → Type 0
TruncatesInRange w log =
    (i first last : ℕ)
    → w.first_index log ≡ some first
    → w.last_index log ≡ some last
    → (leb first i && leb i last) ≡ true
    → (w.truncate_front log i).0 ≡ true
