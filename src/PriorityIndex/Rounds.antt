-- ===== src/PriorityIndex/Rounds.antt =====
-- The rounds of `PromoteStale`: what each does to the queues, and that it keeps the invariant.
use nya_queue.Prelude.{
  ℕ, zero, suc, ◌+◌, ◌-◌, ◌%◌, ◌≤◌, ◌<◌, ◌≡◌, refl, sym, ap, ap₂, ◌∙◌, Bool, List, [], ◌∷◌, arith,
  length, set, ◌⊎◌, not, All, All-set, All-get_or, length-set, length-map, get_or-set_ne,
  set-get_or, drop,
}
use mathlib.Core.Path.{subst⁻¹}
use nya_queue.Prelude.Int.{ℤ}
use nya_queue.Prelude.Words.{mod32, mod64}
use nya_queue.EntryRing.{Time, PendingEntry, linearize, reset_from}
use nya_queue.EntryRing.Bounds.{reset_from-IsValid, cap-reset_from}
use nya_queue.EntryRing.Queue
use nya_queue.EntryRing.Queue.{Queue}
use nya_queue.EntryRing.Refine.{reset_from_refines, length-linearize}
use nya_queue.PriorityIndex.{
  max_priority, Level, PriorityIndex, level_at, zero_level, is_stale, push_all, promote_into,
  promote_level, promote_down, promote_stale,
}
use nya_queue.PriorityIndex.Levels.{
  queues, queue_at, queue_of, queue_at-queues_of, queues_of-set, total_size, total_size-set,
}
use nya_queue.PriorityIndex.Invariant.{IsValid, LevelIsValid, level-IsValid}
use nya_queue.PriorityIndex.Promote.{
  select, push_many, split_stale-select, PushedAll, push_all-PushedAll, promoted, promoted_down,
  length-select,
}

newest-all :
    (limit : ℕ) (es : List PendingEntry)
    → (limit ≡ 0) ⊎ (length es ≤ limit)
    → Queue.newest limit es ≡ es
unfolding Queue.newest
newest-all limit es h = ground (arith, drop-zero (length es - limit) es)
  where
    drop-zero : (n : ℕ) (es : List PendingEntry) → n ≡ 0 → drop n es ≡ es
    drop-zero n es e = rw e

-- An index whose `total` counts `extra` entries that are in no level.
record IsLoose (limit extra : ℕ) (pi : PriorityIndex) : Type 0 where
  ten : length pi.levels ≡ max_priority
  each : All (LevelIsValid limit) pi.levels
  totalled : pi.total ≡ (total_size pi.levels + extra) % mod64

-- The second half of a round brings the stale entries in.
promote_into_lem :
    (limit p : ℕ) (pi : PriorityIndex) (es : List PendingEntry)
    → IsLoose limit (length es) pi
    → p + 1 < max_priority
    → IsValid limit (promote_into pi p es)
      × (queues (promote_into pi p es)
          ≡ set (queues pi) (p + 1) (push_many limit (queue_at (queues pi) (p + 1)) es))
unfolding promote_into push_many
promote_into_lem limit p pi [] v hp = (
  record { ten = v.ten; each = v.each; totalled = omega (arith, v.totalled) },
  sym (set-get_or (queues pi) (p + 1) [] (omega (arith, v.ten, length-map queue_of pi.levels))),
)
promote_into_lem limit p pi (e ∷ es) v hp = (
  record {
    ten = omega (arith, v.ten, length-set pi.levels (p + 1) new);
    each = All-set (LevelIsValid limit) pi.levels (p + 1) new v.each (record {
      ring_valid = done.valid;
      capacity = done.same_cap ∙ up_valid.capacity;
      counted = refl;
    });
    totalled = omega (
      arith,
      v.totalled,
      done.counted,
      done.word,
      total_size-set pi.levels (p + 1) new (omega (arith, v.ten)),
    );
  },
  queues_of-set pi.levels (p + 1) new
      ∙ ap (set (queues pi) (p + 1)) (
          done.pushed
          ∙ ap₂ (λ c q. push_many c q (e ∷ es)) up_valid.capacity
              (sym (queue_at-queues_of pi.levels (p + 1)))),
)
  where
    up : Level
    up = level_at pi.levels (p + 1)

    up_valid : LevelIsValid limit up
    up_valid =
        All-get_or (LevelIsValid limit) pi.levels (p + 1) zero_level v.each (omega (arith, v.ten))

    done : PushedAll up.ring (e ∷ es) pi.total (push_all up.ring (e ∷ es) pi.total)
    done =
        push_all-PushedAll (e ∷ es) up.ring pi.total up_valid.ring_valid (omega (arith, v.totalled))

    new : Level
    new = record {
      ring = (push_all up.ring (e ∷ es) pi.total).0;
      count = (push_all up.ring (e ∷ es) pi.total).0.size % mod32;
    }

-- The first half of a round leaves the fresh entries in level `p`.
abbrev with_fresh : ℕ → PriorityIndex → List PendingEntry → PriorityIndex
with_fresh p pi fresh = record pi {
  levels = set pi.levels p (record {
    ring = reset_from (level_at pi.levels p).ring fresh;
    count = length fresh % mod32;
  });
}

with_fresh_lem :
    (limit p extra : ℕ) (pi : PriorityIndex) (fresh : List PendingEntry)
    → IsValid limit pi
    → p < max_priority
    → extra + length fresh ≡ (level_at pi.levels p).ring.size
    → IsLoose limit extra (with_fresh p pi fresh)
      × (queues (with_fresh p pi fresh) ≡ set (queues pi) p fresh)
with_fresh_lem limit p extra pi fresh v hp sizes = (
  record {
    ten = omega (arith, v.ten, length-set pi.levels p new);
    each = All-set (LevelIsValid limit) pi.levels p new v.each (record {
      ring_valid = reset_from-IsValid lv.ring fresh lv_valid.ring_valid;
      capacity = cap-reset_from lv.ring fresh ∙ lv_valid.capacity;
      counted = omega (arith, new_size);
    });
    totalled =
        omega (
          arith,
          v.totalled,
          new_size,
          sizes,
          total_size-set pi.levels p new (omega (arith, v.ten)),
        );
  },
  queues_of-set pi.levels p new ∙ ap (set (queues pi) p) held,
)
  where
    lv : Level
    lv = level_at pi.levels p

    lv_valid : LevelIsValid limit lv
    lv_valid = level-IsValid limit p pi v hp

    new : Level
    new = record { ring = reset_from lv.ring fresh; count = length fresh % mod32 }

    held : linearize (reset_from lv.ring fresh) ≡ fresh
    held =
        reset_from_refines lv.ring fresh
        ∙ newest-all lv.ring.cap fresh
            (omega (arith, sizes, lv_valid.ring_valid.fits, lv_valid.ring_valid.capped))

    new_size : new.ring.size ≡ length fresh
    new_size = sym (length-linearize new.ring) ∙ ap length held

promote_level-split :
    (p : ℕ) (now : Time) (ttl : ℤ) (pi : PriorityIndex)
    → let q = linearize (level_at pi.levels p).ring in
      promote_level now ttl p pi
      ≡ promote_into
          (with_fresh p pi (select (λ e. not (is_stale now ttl e)) q))
          p
          (select (is_stale now ttl) q)
unfolding promote_level
promote_level-split p now ttl pi =
    ap (λ (sf : List PendingEntry × List PendingEntry). promote_into (with_fresh p pi sf.1) p sf.0)
      (split_stale-select now ttl (linearize (level_at pi.levels p).ring) [] [])

-- A round keeps the invariant. Level `p` keeps its fresh entries in their order, the stale ones join
-- the level above in theirs, and no other level changes.
pub promote_level_refines :
    (limit p : ℕ) (now : Time) (ttl : ℤ) (pi : PriorityIndex)
    → IsValid limit pi
    → p + 1 < max_priority
    → IsValid limit (promote_level now ttl p pi)
      × (queues (promote_level now ttl p pi) ≡ promoted limit (is_stale now ttl) p (queues pi))
unfolding promoted
promote_level_refines limit p now ttl pi v hp = (
  subst⁻¹ (IsValid limit) split into.0,
  ap queues split
      ∙ into.1
      ∙ ap (λ qs. set qs (p + 1) (push_many limit (queue_at qs (p + 1)) stale)) loose.1
      ∙ ap (λ q. set (set (queues pi) p fresh) (p + 1) (push_many limit q stale))
          (get_or-set_ne (queues pi) p (p + 1) fresh [] (omega arith))
      ∙ ap
          (λ q.
            set (set (queues pi) p (select (λ e. not (test e)) q)) (p + 1)
              (push_many limit (queue_at (queues pi) (p + 1)) (select test q)))
          (sym (queue_at-queues_of pi.levels p)),
)
  where
    test : PendingEntry → Bool
    test = is_stale now ttl

    q : Queue
    q = linearize (level_at pi.levels p).ring

    stale : List PendingEntry
    stale = select test q

    fresh : List PendingEntry
    fresh = select (λ e. not (test e)) q

    split : promote_level now ttl p pi ≡ promote_into (with_fresh p pi fresh) p stale
    split = promote_level-split p now ttl pi

    loose :
        IsLoose limit (length stale) (with_fresh p pi fresh)
        × (queues (with_fresh p pi fresh) ≡ set (queues pi) p fresh)
    loose =
        with_fresh_lem limit p (length stale) pi fresh v (omega arith)
          (length-select test q ∙ length-linearize (level_at pi.levels p).ring)

    into :
        IsValid limit (promote_into (with_fresh p pi fresh) p stale)
        × (queues (promote_into (with_fresh p pi fresh) p stale)
            ≡ set
                (queues (with_fresh p pi fresh))
                (p + 1)
                (push_many limit (queue_at (queues (with_fresh p pi fresh)) (p + 1)) stale))
    into = promote_into_lem limit p (with_fresh p pi fresh) stale loose.0 hp

promote_down_refines :
    (limit next : ℕ) (now : Time) (ttl : ℤ) (pi : PriorityIndex)
    → IsValid limit pi
    → next < max_priority
    → IsValid limit (promote_down now ttl next pi)
      × (queues (promote_down now ttl next pi)
          ≡ promoted_down limit (is_stale now ttl) next (queues pi))
unfolding promote_down promoted_down
promote_down_refines limit zero now ttl pi v h = (v, refl)
promote_down_refines limit (suc p) now ttl pi v h =
    let one = promote_level_refines limit p now ttl pi v (omega arith) in
    let rest =
      promote_down_refines limit p now ttl (promote_level now ttl p pi) one.0 (omega arith) in
    (rest.0, rest.1 ∙ ap (promoted_down limit (is_stale now ttl) p) one.1)

-- On an index that satisfies the invariant, `PromoteStale` keeps it, `total` included, and on the
-- queues it is the nine rounds from level 8 down to level 0.
pub promote_stale_refines :
    (limit : ℕ) (now : Time) (ttl : ℤ) (pi : PriorityIndex)
    → IsValid limit pi
    → IsValid limit (promote_stale now ttl pi)
      × (queues (promote_stale now ttl pi)
          ≡ promoted_down limit (is_stale now ttl) (max_priority - 1) (queues pi))
unfolding promote_stale
promote_stale_refines limit now ttl pi v = promote_down_refines limit 9 now ttl pi v (omega arith)
