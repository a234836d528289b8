-- ===== src/Wal/ListLog.antt =====
-- A log in memory that does what the documentation of github.com/tidwall/wal promises.
use nya_queue.Prelude.{
  ℕ, ◌+◌, ◌≤◌, ◌<◌, subst, Bool-cases, inl, inr, ◌≡◌, ◌&&◌, refl, sym, ap, ◌∙◌, leb, ltb, Bool,
  true, false, Option, none, some, List, [], ◌∷◌, ◌++◌, arith, ◌==◌, if◌then◌else◌, length,
}
use nya_queue.Prelude.Elems.{some-inj}
use nya_queue.Wal.{
  TruncatesInRange, Wal, Batch, entry_at, RunsFrom, ReadsBack, WritesInOrder, Truncates,
}

pub record ListLog : Type 0 where
  pub entries : Batch
  pub first : ℕ
  pub last : ℕ

-- Whether the indices of a batch follow one another from `i` on.
unfoldable pub runs_from : ℕ → Batch → Bool
runs_from i [] = true
runs_from i ((j, bytes) ∷ b) = j == i && runs_from (i + 1) b

abbrev pub read : ListLog → ℕ → Option (List ℕ)
read log i = entry_at log.entries i

unfoldable pub write_batch : ListLog → Batch → Bool × ListLog
write_batch log b =
    if runs_from (log.last + 1) b
    then (true, record log { entries = b ++ log.entries; last = log.last + length b })
    else (false, log)

-- The records from an index on.
unfoldable pub keep_from : ℕ → Batch → Batch
keep_from i [] = []
keep_from i ((j, bytes) ∷ b) = if ltb j i then keep_from i b else (j, bytes) ∷ keep_from i b

unfoldable pub truncate_front : ListLog → ℕ → Bool × ListLog
truncate_front log i =
    if leb log.first i && leb i log.last
    then (true, record log { entries = keep_from i log.entries; first = i })
    else (false, log)

abbrev pub list_wal : Wal
list_wal = record {
  Log = ListLog;
  read = read;
  write_batch = write_batch;
  first_index = λ log. some log.first;
  last_index = λ log. some log.last;
  truncate_front = truncate_front;
}

entry_at-keep_from : (i j : ℕ) (b : Batch) → i ≤ j → entry_at (keep_from i b) j ≡ entry_at b j
unfolding entry_at keep_from
entry_at-keep_from i j [] le = refl
entry_at-keep_from i j ((k, bytes) ∷ b) le = ground (arith, entry_at-keep_from i j b le)

entry_at-keep_from_gone : (i j : ℕ) (b : Batch) → j < i → entry_at (keep_from i b) j ≡ none
unfolding entry_at keep_from
entry_at-keep_from_gone i j [] lt = refl
entry_at-keep_from_gone i j ((k, bytes) ∷ b) lt = ground (arith, entry_at-keep_from_gone i j b lt)

pub list_wal-Truncates : Truncates list_wal
unfolding truncate_front
list_wal-Truncates log i first last ef el = (
  λ outside. ground (arith, ef, el, outside),
  λ done. (
    ground (arith, ef, el, done),
    λ j lt. ground (arith, ef, el, done, entry_at-keep_from_gone i j log.entries lt),
    λ j le. ground (arith, ef, el, done, entry_at-keep_from i j log.entries le),
  ),
)

pub list_wal-TruncatesInRange : (log : ListLog) → TruncatesInRange list_wal log
unfolding truncate_front
list_wal-TruncatesInRange log i first last ef el inside = ground (arith, ef, el, inside)

entry_at-append :
    (b b' : Batch) (i : ℕ)
    → entry_at (b ++ b') i ≡ elim (entry_at b i) [ some bytes ↦ some bytes | none ↦ entry_at b' i ]
unfolding entry_at
entry_at-append [] b' i = refl
entry_at-append ((j, bytes) ∷ b) b' i = ground (arith, entry_at-append b b' i)

pub list_wal-ReadsBack : ReadsBack list_wal
unfolding write_batch
list_wal-ReadsBack log log' b i e =
    ap (λ l. entry_at l.entries i) (sym written) ∙ entry_at-append b log.entries i
  where
    written : record log { entries = b ++ log.entries; last = log.last + length b } ≡ log'
    written = ground (arith, e)

runs_from-RunsFrom : (i : ℕ) (b : Batch) → runs_from i b ≡ true → RunsFrom i b
unfolding runs_from
runs_from-RunsFrom i [] e = tt
runs_from-RunsFrom i ((j, bytes) ∷ b) e =
    (ground (arith, e), runs_from-RunsFrom (i + 1) b (ground (arith, e)))

RunsFrom-runs_from : (i : ℕ) (b : Batch) → RunsFrom i b → runs_from i b ≡ true
unfolding runs_from
RunsFrom-runs_from i [] h = refl
RunsFrom-runs_from i ((j, bytes) ∷ b) h = ground (arith, h.0, RunsFrom-runs_from (i + 1) b h.1)

write_batch-in_order :
    (log : ListLog) (b : Batch)
    → runs_from (log.last + 1) b ≡ true
    → write_batch log b
      ≡ (true, record log { entries = b ++ log.entries; last = log.last + length b })
unfolding write_batch
write_batch-in_order log b e = ground (arith, e)

write_batch-out_of_order :
    (log : ListLog) (b : Batch)
    → runs_from (log.last + 1) b ≡ false
    → write_batch log b ≡ (false, log)
unfolding write_batch
write_batch-out_of_order log b e = ground (arith, e)

pub list_wal-WritesInOrder : WritesInOrder list_wal
list_wal-WritesInOrder log log' b done last e at = elim (Bool-cases (runs_from (log.last + 1) b)) [
  | inl in_order ↦
      let written = sym e ∙ write_batch-in_order log b in_order in
      let runs : RunsFrom (last + 1) b =
        subst (λ l. RunsFrom (l + 1) b) (some-inj at)
          (runs_from-RunsFrom (log.last + 1) b in_order) in
      (
        λ _. (
          runs,
          ap (λ (r : Bool × ListLog). some r.1.last) written
              ∙ ap (λ l. some (l + length b)) (some-inj at),
        ),
        λ out. absurd (out runs),
      )
  | inr out_of_order ↦
      let refused = sym e ∙ write_batch-out_of_order log b out_of_order in
      (
        λ yes. absurd (ground (arith, yes, ap (λ (r : Bool × ListLog). r.0) refused)),
        λ _. (
          ap (λ (r : Bool × ListLog). r.0) refused,
          ap (λ (r : Bool × ListLog). some r.1.last) refused ∙ at,
        ),
      )
]
