-- ===== src/PriorityIndex/Promote.antt =====
-- `PromoteStale` on the queues of the levels.
use nya_queue.Prelude.{
  ℕ, zero, suc, ◌+◌, ◌%◌, ◌<◌, ◌≡◌, refl, sym, ap, ap₂, ◌∙◌, Bool, none, some, List, [], ◌∷◌, ◌++◌,
  arith, length, set, inl, inr, Bool-cases, snoc_append, append-nil, if◌then◌else◌, not,
}
use nya_queue.Prelude.Int.{ℤ}
use nya_queue.Prelude.Words.{mod64, sub64}
use nya_queue.EntryRing.{Time, PendingEntry, EntryRing, push_back, linearize}
use nya_queue.EntryRing.Bounds
use nya_queue.EntryRing.Bounds.{
  push_back-IsValid, cap-push_back, size-push_back, reset_from-IsValid, cap-reset_from,
}
use nya_queue.EntryRing.Queue
use nya_queue.EntryRing.Queue.{Queue}
use nya_queue.EntryRing.Refine.{push_back_refines}
use nya_queue.PriorityIndex.{is_stale, split_stale, push_all}
use nya_queue.PriorityIndex.Levels.{queue_at}

-- The entries that pass a test, in their order.
unfoldable pub select : (PendingEntry → Bool) → List PendingEntry → List PendingEntry
select test [] = []
select test (e ∷ es) = if test e then e ∷ select test es else select test es

-- To push several entries, each evicting the oldest where the queue is full.
unfoldable pub push_many : ℕ → Queue → List PendingEntry → Queue
push_many limit q [] = q
push_many limit q (e ∷ es) = push_many limit (Queue.push limit q e).1 es

pub split_stale-select :
    (now : Time) (ttl : ℤ) (es stale fresh : List PendingEntry)
    → split_stale now ttl es stale fresh
      ≡ (stale ++ select (is_stale now ttl) es, fresh ++ select (λ e. not (is_stale now ttl e)) es)
unfolding split_stale select
split_stale-select now ttl [] stale fresh =
    ap₂ (λ a b. (a, b)) (sym (append-nil stale)) (sym (append-nil fresh))
split_stale-select now ttl (e ∷ es) stale fresh = elim (Bool-cases (is_stale now ttl e)) [
  | inl old ↦ rw old (
      split_stale-select now ttl es (stale ++ (e ∷ [])) fresh
      ∙ ap (λ a. (a, fresh ++ select (λ e. not (is_stale now ttl e)) es)) (snoc_append stale e _))
  | inr young ↦ rw young (
      split_stale-select now ttl es stale (fresh ++ (e ∷ []))
      ∙ ap (λ b. (stale ++ select (is_stale now ttl) es, b)) (snoc_append fresh e _))
]

pub record PushedAll (ring : EntryRing) (es : List PendingEntry) (total : ℕ) (out : EntryRing × ℕ)
    : Type 0 where
  pub valid : Bounds.IsValid out.0
  pub same_cap : out.0.cap ≡ ring.cap
  pub pushed : linearize out.0 ≡ push_many ring.cap (linearize ring) es
  pub counted : (out.1 + ring.size + length es) % mod64 ≡ (total + out.0.size) % mod64
  pub word : out.1 < mod64

-- `total` after one entry is pushed.
abbrev total_after : EntryRing → PendingEntry → ℕ → ℕ
total_after ring e total = elim (push_back ring e).0 [ none ↦ total | some _ ↦ sub64 total 1 ]

total_after_lem :
    (ring : EntryRing) (e : PendingEntry) (total : ℕ)
    → total < mod64
    → ((total_after ring e total + ring.size + 1) % mod64
        ≡ (total + (push_back ring e).1.size) % mod64)
      × (total_after ring e total < mod64)
total_after_lem ring e total w = ground (arith, size-push_back ring e)

pub push_all-PushedAll :
    (es : List PendingEntry) (ring : EntryRing) (total : ℕ)
    → Bounds.IsValid ring
    → total < mod64
    → PushedAll ring es total (push_all ring es total)
unfolding push_all push_many
push_all-PushedAll [] ring total v w = record {
  valid = v;
  same_cap = refl;
  pushed = refl;
  counted = omega arith;
  word = w;
}
push_all-PushedAll (e ∷ es) ring total v w =
    let ring' = (push_back ring e).1 in
    let (one, w') = total_after_lem ring e total w in
    let rest =
      push_all-PushedAll es ring' (total_after ring e total) (push_back-IsValid ring e v) w' in
    record {
      valid = rest.valid;
      same_cap = rest.same_cap ∙ cap-push_back ring e;
      pushed =
          rest.pushed
          ∙ ap₂ (λ c q. push_many c q es) (cap-push_back ring e)
              (ap (λ t. t.1) (push_back_refines ring e v));
      counted = omega (arith, one, rest.counted);
      word = rest.word;
    }

-- One round: level `p` keeps what the test refuses, and the rest joins the level above.
unfoldable pub promoted : ℕ → (PendingEntry → Bool) → ℕ → List Queue → List Queue
promoted limit test p qs =
    set (set qs p (select (λ e. not (test e)) (queue_at qs p))) (p + 1)
      (push_many limit (queue_at qs (p + 1)) (select test (queue_at qs p)))

unfoldable pub promoted_down : ℕ → (PendingEntry → Bool) → ℕ → List Queue → List Queue
promoted_down limit test zero qs = qs
promoted_down limit test (suc p) qs = promoted_down limit test p (promoted limit test p qs)

pub length-select :
    (test : PendingEntry → Bool) (es : List PendingEntry)
    → length (select test es) + length (select (λ e. not (test e)) es) ≡ length es
unfolding select
length-select test [] = refl
length-select test (e ∷ es) = ground (arith, length-select test es)
