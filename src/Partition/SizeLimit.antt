-- ===== src/Partition/SizeLimit.antt =====
-- `TruncateOldestUntilSize`: how many records it removes, and when it fails.
use nya_queue.Prelude.{
  ℕ, zero, suc, ◌+◌, ◌-◌, ◌<◌, ◌≡◌, refl, sym, ap, ap₂, ◌∙◌, subst, Bool-cases, inl, inr, true,
  false, some, List, [], ◌∷◌, arith, if◌then◌else◌, length, take, drop,
}
use nya_queue.Prelude.Int.{ℤ, pos, ltb_ℤ, ◌-ℤ◌}
use nya_queue.Wal.{Wal, Truncates, TruncatesInRange}
use nya_queue.Partition.{Result, ok, err, wal_truncate, Partition}
use nya_queue.Partition.Retention.{
  Removal, no_removal, one_more, remove, size_from, oldest_from, truncate_oldest_until_size,
}
use nya_queue.Partition.Expiry.{
  total_size, more, more-zero, more-suc, Holds, Trimmed, IsStored, remove-within, remove-all,
}

-- The number of oldest records to drop until the rest is at most a size.
unfoldable pub excess : ℤ → List (List ℕ) → ℕ
excess limit [] = 0
excess limit (r ∷ rs) = if ltb_ℤ limit (pos (total_size (r ∷ rs))) then suc (excess limit rs) else 0

excess-over :
    (limit : ℤ) (r : List ℕ) (rs : List (List ℕ))
    → ltb_ℤ limit (pos (total_size (r ∷ rs))) ≡ true
    → excess limit (r ∷ rs) ≡ suc (excess limit rs)
unfolding excess
excess-over limit r rs h = ground (arith, h)

excess-under :
    (limit : ℤ) (r : List ℕ) (rs : List (List ℕ))
    → ltb_ℤ limit (pos (total_size (r ∷ rs))) ≡ false
    → excess limit (r ∷ rs) ≡ 0
unfolding excess
excess-under limit r rs h = ground (arith, h)

-- It is the least number that does.
pub excess-least :
    (limit : ℤ) (rs : List (List ℕ)) (k : ℕ)
    → k < excess limit rs
    → ltb_ℤ limit (pos (total_size (drop k rs))) ≡ true
unfolding excess
excess-least limit [] k lt = absurd (omega arith)
excess-least limit (r ∷ rs) zero lt = ground arith
excess-least limit (r ∷ rs) (suc k) lt = excess-least limit rs k (ground arith)

pub excess-fits :
    (limit : ℤ) (rs : List (List ℕ))
    → excess limit rs < length rs
    → ltb_ℤ limit (pos (total_size (drop (excess limit rs) rs))) ≡ false
excess-fits limit [] lt = absurd (omega arith)
excess-fits limit (r ∷ rs) lt = elim (Bool-cases (ltb_ℤ limit (pos (total_size (r ∷ rs))))) [
  | inl over ↦
      let step = excess-over limit r rs over in
      ap (λ k. ltb_ℤ limit (pos (total_size (drop k (r ∷ rs))))) step
      ∙ excess-fits limit rs (omega (arith, step, lt))
  | inr under ↦
      ap (λ k. ltb_ℤ limit (pos (total_size (drop k (r ∷ rs))))) (excess-under limit r rs under)
      ∙ under
]

module _ (w : Wal) where
  size_from-total :
      (log : w.Log) (total off : ℕ) (rs : List (List ℕ))
      → Holds w log off rs
      → size_from w log total off (length rs) ≡ total + total_size rs
  unfolding size_from total_size
  size_from-total log total off [] v = omega arith
  size_from-total log total off (r ∷ rs) v =
      ground (arith, v.0, size_from-total log (total + length r) (off + 1) rs v.1)

  -- One round of the loop.
  oldest_from-over :
      (log : w.Log) (limit : ℤ) (r : Removal) (off n : ℕ) (x : List ℕ) (rs : List (List ℕ))
      → w.read log off ≡ some x
      → ltb_ℤ limit (pos (total_size (x ∷ rs))) ≡ true
      → oldest_from w log limit (pos (total_size (x ∷ rs))) r off (suc n)
        ≡ oldest_from w log limit (pos (total_size rs)) (one_more r off (length x)) (off + 1) n
  unfolding oldest_from total_size
  oldest_from-over log limit r off n x rs at over =
      ground (arith, at, over)
      ∙ ap (λ t. oldest_from w log limit t (one_more r off (length x)) (off + 1) n)
          {x = pos (length x + total_size rs) -ℤ pos (length x)} (ground arith)

  oldest_from-under :
      (log : w.Log) (limit : ℤ) (r : Removal) (off n : ℕ) (x : List ℕ) (rs : List (List ℕ))
      → w.read log off ≡ some x
      → ltb_ℤ limit (pos (total_size (x ∷ rs))) ≡ false
      → oldest_from w log limit (pos (total_size (x ∷ rs))) r off (suc n) ≡ r
  unfolding oldest_from total_size
  oldest_from-under log limit r off n x rs at under = ground (arith, at, under)

  oldest_from-more :
      (log : w.Log) (limit : ℤ) (r : Removal) (off : ℕ) (rs : List (List ℕ))
      → Holds w log off rs
      → oldest_from w log limit (pos (total_size rs)) r off (length rs)
        ≡ more r off (excess limit rs) (total_size (take (excess limit rs) rs))
  unfolding oldest_from excess total_size
  oldest_from-more log limit r off [] v = sym (more-zero r off)
  oldest_from-more log limit r off (x ∷ rs) v =
      elim (Bool-cases (ltb_ℤ limit (pos (total_size (x ∷ rs))))) [
        | inl over ↦
            oldest_from-over log limit r off (length rs) x rs v.0 over
            ∙ oldest_from-more log limit (one_more r off (length x)) (off + 1) rs v.1
            ∙ more-suc r off (length x) (excess limit rs) _
            ∙ ap (λ k. more r off k (total_size (take k (x ∷ rs))))
                (sym (excess-over limit x rs over))
        | inr under ↦
            oldest_from-under log limit r off (length rs) x rs v.0 under
            ∙ sym (more-zero r off)
            ∙ ap (λ k. more r off k (total_size (take k (x ∷ rs))))
                (sym (excess-under limit x rs under))
      ]

  remove-none : (p : Partition w.Log) → remove w p no_removal ≡ (ok (0, 0), p)
  unfolding remove
  remove-none p = ground arith

  excess-zero :
      (limit : ℤ) (rs : List (List ℕ))
      → ltb_ℤ limit (pos (total_size rs)) ≡ false
      → excess limit rs ≡ 0
  unfolding excess
  excess-zero limit [] h = refl
  excess-zero limit (r ∷ rs) h = excess-under limit r rs h

  -- The two outcomes of the size check.
  truncate_oldest-under :
      (p : Partition w.Log) (limit : ℤ) (first : ℕ)
      → w.first_index p.log ≡ some first
      → ltb_ℤ limit (pos (size_from w p.log 0 first (p.next_offset - first))) ≡ false
      → truncate_oldest_until_size w p limit ≡ (ok (0, 0), p)
  unfolding truncate_oldest_until_size
  truncate_oldest-under p limit first at under = ground (arith, at, under)

  truncate_oldest-over :
      (p : Partition w.Log) (limit : ℤ) (first : ℕ)
      → w.first_index p.log ≡ some first
      → 0 < first
      → ltb_ℤ limit (pos (size_from w p.log 0 first (p.next_offset - first))) ≡ true
      → truncate_oldest_until_size w p limit
        ≡ remove w p (
            oldest_from w p.log limit
              (pos (size_from w p.log 0 first (p.next_offset - first)))
              no_removal
              first
              (p.next_offset - first))
  unfolding truncate_oldest_until_size
  truncate_oldest-over p limit first at positive over = ground (arith, at, positive, over)

  truncate_oldest-remove :
      (p : Partition w.Log) (limit : ℤ) (first : ℕ) (rs : List (List ℕ))
      → IsStored w p first rs
      → truncate_oldest_until_size w p limit
        ≡ remove w p
            (more no_removal first (excess limit rs) (total_size (take (excess limit rs) rs)))
  unfolding total_size remove
  truncate_oldest-remove p limit first rs v =
      elim (Bool-cases (ltb_ℤ limit (pos (total_size rs)))) [
        | inl over ↦
            truncate_oldest-over p limit first v.from_first v.first_positive
              (ap (λ t. ltb_ℤ limit (pos t)) size ∙ over)
            ∙ ap₂ (λ t n. remove w p (oldest_from w p.log limit (pos t) no_removal first n)) size
                amount
            ∙ ap (remove w p) (oldest_from-more p.log limit no_removal first rs v.holds)
        | inr under ↦
            truncate_oldest-under p limit first v.from_first
              (ap (λ t. ltb_ℤ limit (pos t)) size ∙ under)
            ∙ sym (remove-none p)
            ∙ ap (remove w p) (sym (more-zero no_removal first))
            ∙ ap (λ k. remove w p (more no_removal first k (total_size (take k rs)))) {x = 0}
                (sym (excess-zero limit rs under))
      ]
    where
      amount : p.next_offset - first ≡ length rs
      amount = omega (arith, v.next)

      size : size_from w p.log 0 first (p.next_offset - first) ≡ total_size rs
      size =
          ap (size_from w p.log 0 first) amount
          ∙ size_from-total p.log 0 first rs v.holds
          ∙ omega arith

  -- Let the write-ahead log be truncated at its indices only, which removes the records before the
  -- index, let no truncation in range fail, and let a partition in step with its log hold some
  -- records. If the last of them alone is not larger than the limit, `TruncateOldestUntilSize`
  -- removes the least number of oldest records that makes the rest at most as large as the limit
  -- (none, if it is so already): it returns their number and the sum of their sizes, they are no
  -- longer in the log, which begins with the record behind them, and the other records stay readable
  -- where they were.
  pub truncate_oldest_until_size-removes :
      (p : Partition w.Log) (limit : ℤ) (first : ℕ) (rs : List (List ℕ))
      → Truncates w
      → TruncatesInRange w p.log
      → IsStored w p first rs
      → excess limit rs < length rs
      → let k = excess limit rs in
        ((truncate_oldest_until_size w p limit).0 ≡ ok (k, total_size (take k rs)))
        × Trimmed w (truncate_oldest_until_size w p limit).1.log first k rs
        × (ltb_ℤ limit (pos (total_size (drop k rs))) ≡ false)
        × ((j : ℕ) → j < k → ltb_ℤ limit (pos (total_size (drop j rs))) ≡ true)
  truncate_oldest_until_size-removes p limit first rs truncates works v lt =
      let same = truncate_oldest-remove p limit first rs v in
      let done =
        remove-within w p first (excess limit rs) (total_size (take (excess limit rs) rs)) rs
          truncates works v lt in
      (
        ap (λ t. t.0) same ∙ done.0,
        subst
            (λ (t : Result (ℕ × ℕ) × Partition w.Log). Trimmed w t.1.log first (excess limit rs) rs)
            (sym same) done.1,
        excess-fits limit rs lt,
        excess-least limit rs,
      )

  -- Let the write-ahead log be truncated at its indices only, and let a partition in step with it
  -- hold some records. If even the last of them alone is larger than the limit, so that all would
  -- have to go, `TruncateOldestUntilSize` fails: the index that it asks for is behind the last
  -- one.
  pub truncate_oldest_until_size-all :
      (p : Partition w.Log) (limit : ℤ) (first : ℕ) (rs : List (List ℕ))
      → Truncates w
      → IsStored w p first rs
      → excess limit rs ≡ length rs
      → (truncate_oldest_until_size w p limit).0 ≡ err wal_truncate
  truncate_oldest_until_size-all p limit first rs truncates v all =
      ap (λ t. t.0) (truncate_oldest-remove p limit first rs v)
      ∙ ap (λ n. (remove w p (more no_removal first n (total_size (take n rs)))).0) all
      ∙ remove-all w p first _ rs truncates v
