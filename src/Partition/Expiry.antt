-- ===== src/Partition/Expiry.antt =====
-- `TruncateBefore`: how many records it removes, and when it fails.
use nya_queue.Prelude.{
  ℕ, zero, suc, ◌+◌, ◌-◌, ◌≤◌, ◌<◌, ◌≡◌, sym, ap, ◌∙◌, subst, Bool, Bool-cases, inl, inr, true,
  false, none, refl, some, List, [], ◌∷◌, arith, if◌then◌else◌, ◌==◌, length, take, drop,
}
use nya_queue.Prelude.Int.{ltb_ℤ}
use nya_queue.Prelude.Words.{signed64}
use nya_queue.EntryRing.{Time}
use nya_queue.Message
use nya_queue.Message.{MessageHeader, unmarshal_header}
use nya_queue.Wal.{Wal, Truncates, TruncatesInRange}
use nya_queue.Partition.{Result, ok, err, wal_truncate, Partition}
use nya_queue.Partition.Rebuild.{header_cases}
use nya_queue.Partition.Retention.{
  Removal, no_removal, one_more, remove, expired_from, truncate_before,
}

-- A record whose header can be read and is older than the cutoff.
unfoldable pub is_old : Time → List ℕ → Bool
is_old cutoff bytes = elim (unmarshal_header bytes) [
  | Message.ok h ↦ ltb_ℤ (signed64 h.timestamp) cutoff
  | Message.err e ↦ false
]

-- The number of old records before the first that is not.
unfoldable pub old_prefix : Time → List (List ℕ) → ℕ
old_prefix cutoff [] = 0
old_prefix cutoff (r ∷ rs) = if is_old cutoff r then suc (old_prefix cutoff rs) else 0

unfoldable pub total_size : List (List ℕ) → ℕ
total_size [] = 0
total_size (r ∷ rs) = length r + total_size rs

-- A removal that goes on by `n` records, of `size` bytes together, from `off` on.
unfoldable pub more : Removal → ℕ → ℕ → ℕ → Removal
more r off n size = record {
  truncate_at = if n == 0 then r.truncate_at else off + n;
  deleted = r.deleted + n;
  deleted_bytes = r.deleted_bytes + size;
}

pub more-zero : (r : Removal) (off : ℕ) → more r off 0 0 ≡ r
unfolding more
more-zero r off = ground arith

pub more-suc :
    (r : Removal) (off size n rest : ℕ)
    → more (one_more r off size) (off + 1) n rest ≡ more r off (suc n) (size + rest)
unfolding more
more-suc r off size n rest = ground arith

old_prefix-old :
    (cutoff : Time) (x : List ℕ) (rs : List (List ℕ))
    → is_old cutoff x ≡ true
    → old_prefix cutoff (x ∷ rs) ≡ suc (old_prefix cutoff rs)
unfolding old_prefix
old_prefix-old cutoff x rs h = ground (arith, h)

old_prefix-new :
    (cutoff : Time) (x : List ℕ) (rs : List (List ℕ))
    → is_old cutoff x ≡ false
    → old_prefix cutoff (x ∷ rs) ≡ 0
unfolding old_prefix
old_prefix-new cutoff x rs h = ground (arith, h)

module _ (w : Wal) where
  -- The log holds these records from an offset on.
  abbrev pub Holds : w.Log → ℕ → List (List ℕ) → Type 0
  Holds log off [] = Unit {0}
  Holds log off (r ∷ rs) = (w.read log off ≡ some r) × Holds log (off + 1) rs

  -- One round of the loop.
  expired_from-old :
      (log : w.Log) (cutoff : Time) (r : Removal) (off n : ℕ) (x : List ℕ)
      → w.read log off ≡ some x
      → is_old cutoff x ≡ true
      → expired_from w log cutoff r off (suc n)
        ≡ expired_from w log cutoff (one_more r off (length x)) (off + 1) n
  unfolding expired_from is_old
  expired_from-old log cutoff r off n x at old = elim (header_cases (unmarshal_header x)) [
    | inl (e, bad) ↦ absurd (ground (arith, bad, old))
    | inr (h, good) ↦ ground (arith, at, good, old)
  ]

  expired_from-new :
      (log : w.Log) (cutoff : Time) (r : Removal) (off n : ℕ) (x : List ℕ)
      → w.read log off ≡ some x
      → is_old cutoff x ≡ false
      → expired_from w log cutoff r off (suc n) ≡ r
  unfolding expired_from is_old
  expired_from-new log cutoff r off n x at new = elim (header_cases (unmarshal_header x)) [
    | inl (e, bad) ↦ ground (arith, at, bad)
    | inr (h, good) ↦ ground (arith, at, good, new)
  ]

  expired_from-more :
      (log : w.Log) (cutoff : Time) (r : Removal) (off : ℕ) (rs : List (List ℕ))
      → Holds log off rs
      → expired_from w log cutoff r off (length rs)
        ≡ more r off (old_prefix cutoff rs) (total_size (take (old_prefix cutoff rs) rs))
  unfolding expired_from old_prefix total_size more
  expired_from-more log cutoff r off [] v = ground arith
  expired_from-more log cutoff r off (x ∷ rs) v = elim (Bool-cases (is_old cutoff x)) [
    | inl old ↦
        expired_from-old log cutoff r off (length rs) x v.0 old
        ∙ expired_from-more log cutoff (one_more r off (length x)) (off + 1) rs v.1
        ∙ more-suc r off (length x) (old_prefix cutoff rs) _
        ∙ ap (λ k. more r off k (total_size (take k (x ∷ rs))))
            (sym (old_prefix-old cutoff x rs old))
    | inr new ↦
        expired_from-new log cutoff r off (length rs) x v.0 new
        ∙ sym (more-zero r off)
        ∙ ap (λ k. more r off k (total_size (take k (x ∷ rs))))
            (sym (old_prefix-new cutoff x rs new))
  ]

  Holds-drop :
      (log log' : w.Log) (off n : ℕ) (rs : List (List ℕ))
      → Holds log off rs
      → ((j : ℕ) → off + n ≤ j → w.read log' j ≡ w.read log j)
      → Holds log' (off + n) (drop n rs)
  Holds-drop log log' off zero [] v same = tt
  Holds-drop log log' off (suc n) [] v same = tt
  Holds-drop log log' off zero (x ∷ rs) v same =
      subst (λ o. Holds log' o (x ∷ rs)) {x = off} {y = off + 0} (omega arith)
        (
          same off (omega arith) ∙ v.0,
          subst (λ o. Holds log' o rs) {x = off + 1 + 0} (omega arith)
              (Holds-drop log log' (off + 1) zero rs v.1 (λ j le. same j (omega arith))),
        )
  Holds-drop log log' off (suc n) (x ∷ rs) v same =
      subst (λ o. Holds log' o (drop n rs)) {x = off + 1 + n} (omega arith)
        (Holds-drop log log' (off + 1) n rs v.1 (λ j le. same j (omega arith)))

  -- A partition in step with its log, which holds the records of all its offsets.
  pub record IsStored (p : Partition w.Log) (first : ℕ) (rs : List (List ℕ)) : Type 0 where
    pub from_first : w.first_index p.log ≡ some first
    pub to_last : w.last_index p.log ≡ some (first + length rs - 1)
    pub first_positive : 0 < first
    pub some_record : 0 < length rs
    pub next : p.next_offset ≡ first + length rs
    pub holds : Holds p.log first rs

  -- The first `n` of some records are gone from the log, which holds the others where they were.
  abbrev pub Trimmed : w.Log → ℕ → ℕ → List (List ℕ) → Type 0
  Trimmed log first n rs =
      (w.first_index log ≡ some (first + n))
      × ((j : ℕ) → first ≤ j → j < first + n → w.read log j ≡ none)
      × Holds log (first + n) (drop n rs)

  remove-zero :
      (p : Partition w.Log) (first size : ℕ)
      → remove w p (more no_removal first 0 size) ≡ (ok (0, size), p)
  unfolding remove more
  remove-zero p first size = ground arith

  remove-suc :
      (p : Partition w.Log) (first n size : ℕ)
      → (w.truncate_front p.log (first + suc n)).0 ≡ true
      → remove w p (more no_removal first (suc n) size)
        ≡ (ok (suc n, size), record p { log = (w.truncate_front p.log (first + suc n)).1 })
  unfolding remove more
  remove-suc p first n size done = ground (arith, done)

  -- A removal that leaves a record is done; one that leaves none is refused.
  pub remove-within :
      (p : Partition w.Log) (first n size : ℕ) (rs : List (List ℕ))
      → Truncates w
      → TruncatesInRange w p.log
      → IsStored p first rs
      → n < length rs
      → ((remove w p (more no_removal first n size)).0 ≡ ok (n, size))
        × Trimmed (remove w p (more no_removal first n size)).1.log first n rs
  remove-within p first zero size rs truncates works v lt =
      subst
        (λ (o : Result (ℕ × ℕ) × Partition w.Log).
          (o.0 ≡ ok (0, size)) × Trimmed o.1.log first 0 rs)
        (sym (remove-zero p first size))
        (
          refl,
          (
            v.from_first ∙ ap some {y = first + 0} (omega arith),
            λ j le below. absurd (omega (arith, le, below)),
            Holds-drop p.log p.log first zero rs v.holds (λ j le. refl),
          ),
        )
  remove-within p first (suc n) size rs truncates works v lt =
      subst
        (λ (o : Result (ℕ × ℕ) × Partition w.Log).
          (o.0 ≡ ok (suc n, size)) × Trimmed o.1.log first (suc n) rs)
        (sym (remove-suc p first n size done))
        (
          refl,
          (
            kept.0,
            λ j le below. kept.1 j below,
            Holds-drop p.log _ first (suc n) rs v.holds kept.2,
          ),
        )
    where
      done : (w.truncate_front p.log (first + suc n)).0 ≡ true
      done =
          works (first + suc n) first (first + length rs - 1) v.from_first v.to_last
            (ground (arith, lt, v.first_positive))

      kept :
          (w.first_index (w.truncate_front p.log (first + suc n)).1 ≡ some (first + suc n))
          × ((j : ℕ)
              → j < first + suc n
              → w.read (w.truncate_front p.log (first + suc n)).1 j ≡ none)
          × ((j : ℕ)
              → first + suc n ≤ j
              → w.read (w.truncate_front p.log (first + suc n)).1 j ≡ w.read p.log j)
      kept =
          (truncates p.log (first + suc n) first (first + length rs - 1) v.from_first v.to_last).1
            done

  pub remove-all :
      (p : Partition w.Log) (first size : ℕ) (rs : List (List ℕ))
      → Truncates w
      → IsStored p first rs
      → (remove w p (more no_removal first (length rs) size)).0 ≡ err wal_truncate
  unfolding remove more
  remove-all p first size rs truncates v = ground (
    arith,
    v.some_record,
    v.first_positive,
    (truncates p.log (first + length rs) first (first + length rs - 1) v.from_first v.to_last).0
        (ground (arith, v.some_record, v.first_positive)),
  )

  truncate_before-remove :
      (p : Partition w.Log) (cutoff : Time) (first : ℕ) (rs : List (List ℕ))
      → IsStored p first rs
      → truncate_before w p cutoff
        ≡ remove w p (
            more no_removal first
              (old_prefix cutoff rs)
              (total_size (take (old_prefix cutoff rs) rs)))
  unfolding truncate_before
  truncate_before-remove p cutoff first rs v =
      ground (arith, v.from_first, v.first_positive)
      ∙ ap (λ n. remove w p (expired_from w p.log cutoff no_removal first n))
          {x = p.next_offset - first} (omega (arith, v.next))
      ∙ ap (remove w p) (expired_from-more p.log cutoff no_removal first rs v.holds)

  -- Let the write-ahead log be truncated at its indices only, which removes the records before the
  -- index, let no truncation in range fail, and let a partition in step with its log hold some
  -- records. If not all of them are older than the cutoff, `TruncateBefore` removes exactly those
  -- before the first whose header cannot be read or is not older: it returns their number and the
  -- sum of their sizes, they are no longer in the log, which begins with the record behind them, and
  -- the records from there on stay readable where they were.
  pub truncate_before-removes :
      (p : Partition w.Log) (cutoff : Time) (first : ℕ) (rs : List (List ℕ))
      → Truncates w
      → TruncatesInRange w p.log
      → IsStored p first rs
      → old_prefix cutoff rs < length rs
      → ((truncate_before w p cutoff).0
          ≡ ok (old_prefix cutoff rs, total_size (take (old_prefix cutoff rs) rs)))
        × Trimmed (truncate_before w p cutoff).1.log first (old_prefix cutoff rs) rs
  truncate_before-removes p cutoff first rs truncates works v lt =
      rw (truncate_before-remove p cutoff first rs v)
        (remove-within p first _ _ rs truncates works v lt)

  -- Let the write-ahead log be truncated at its indices only, and let a partition in step with it
  -- hold some records. If all of them are older than the cutoff, `TruncateBefore` fails: the
  -- index that it asks for is behind the last one.
  pub truncate_before-all_old :
      (p : Partition w.Log) (cutoff : Time) (first : ℕ) (rs : List (List ℕ))
      → Truncates w
      → IsStored p first rs
      → old_prefix cutoff rs ≡ length rs
      → (truncate_before w p cutoff).0 ≡ err wal_truncate
  truncate_before-all_old p cutoff first rs truncates v all =
      ap (λ t. t.0) (truncate_before-remove p cutoff first rs v)
      ∙ ap (λ n. (remove w p (more no_removal first n (total_size (take n rs)))).0) all
      ∙ remove-all p first _ rs truncates v
