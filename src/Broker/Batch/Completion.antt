-- ===== src/Broker/Batch/Completion.antt =====
-- What appending the groups of a batch leaves of the publishes in flight.
use nya_queue.Prelude.{
  ◌%◌, ℕ, ◌+◌, ◌<◌, ◌≡◌, refl, sym, ap, ◌∙◌, subst, Bool-cases, Option-cases, inl, inr, Bool, true,
  false, some, List, [], ◌∷◌, arith, length, length-append, length-set, set, get_elem?, map, All,
  ◌==◌, if◌then◌else◌,
}
use nya_queue.Prelude.Int.{pos}
use nya_queue.Prelude.Elems.{get_elem?-total}
use nya_queue.Prelude.Words.{mod64}
use nya_queue.Balancer.P2c.Inflight.{one_if}
use nya_queue.Partition.{Partition, Clock}
use nya_queue.OffsetStore.{lookup}
use nya_queue.OffsetStore.Maps.{lookup-insert_same}
use nya_queue.Topic.{Topic, get_partition}
use nya_queue.Broker.{Parts, not_acquired, Broker, Float, put_partition}
use nya_queue.Broker.Publish.{complete}
use nya_queue.Broker.Publish.Refusals.{Tracks}
use nya_queue.Broker.Batch.{
  PublishResult, Indexed, Groups, add_to_group, set_errors, complete_all, record_produce_batch,
  after_group, append_group, append_partition_batch, append_groups,
}

-- The messages of a group, if it is for a partition, and those of all groups.
unfoldable pub members : ℕ → ℕ → List Indexed → ℕ
members i part batch = if i == part then length batch else 0

unfoldable pub count : ℕ → Groups → ℕ
count i [] = 0
count i ((part, batch) ∷ rest) = members i part batch + count i rest

pub members-nil : (i part : ℕ) → members i part [] ≡ 0
unfolding members
members-nil i part = ground arith

members-cons :
    (i part : ℕ) (item : Indexed) (items : List Indexed)
    → members i part (item ∷ items) ≡ one_if i part + members i part items
unfolding members one_if
members-cons i part item items = ground arith

pub count-add_to_group :
    (i : ℕ) (gs : Groups) (part : ℕ) (item : Indexed)
    → count i (add_to_group gs part item) ≡ count i gs + one_if i part
unfolding count members one_if add_to_group
count-add_to_group i [] part item = ground arith
count-add_to_group i ((j, batch) ∷ rest) part item = elim (Bool-cases (j == part)) [
  | inl e ↦ ground (arith, e, length-append batch (item ∷ []))
  | inr e ↦ ground (arith, e, count-add_to_group i rest part item)
]

-- The groups are for partitions below a number.
abbrev pub AreBelow : ℕ → Groups → Type 0
AreBelow n gs = All (λ (g : ℕ × List Indexed). g.0 < n) gs

pub if-P :
    {A : Type 0} → (P : A → Type 0) (test : Bool) {a b : A} → P a → P b → P (if test then a else b)
if-P P true p q = p
if-P P false p q = q

pub add_to_group-AreBelow :
    (n : ℕ) (gs : Groups) (part : ℕ) (item : Indexed)
    → part < n
    → AreBelow n gs
    → AreBelow n (add_to_group gs part item)
unfolding add_to_group
add_to_group-AreBelow n [] part item lt h = (lt, tt)
add_to_group-AreBelow n ((j, batch) ∷ rest) part item lt h =
    if-P (AreBelow n) (j == part) (h.0, h.1) (h.0, add_to_group-AreBelow n rest part item lt h.1)

module _ (x : Parts) (IsReady : x.BalancerState → ℕ → Type 0) (in_flight : x.BalancerState → ℕ → ℕ)
    (tracks : Tracks x IsReady in_flight) where
  open x use {wal}

  -- The counters are those of `n` with some more for each partition.
  abbrev pub Counts : (ℕ → ℕ) → (ℕ → ℕ) → x.BalancerState → Type 0
  Counts n more s = (i : ℕ) → in_flight s i ≡ (n i + more i) % mod64

  abbrev none_more : ℕ → ℕ
  none_more i = 0

  complete_all-Counts :
      (items : List Indexed) (b : Broker x) (part m : ℕ) (n : ℕ → ℕ)
      → part < m
      → IsReady b.balancer m
      → Counts n (λ i. members i part items) b.balancer
      → IsReady (complete_all x b part items).balancer m
        × Counts n none_more (complete_all x b part items).balancer
        × ((complete_all x b part items).topics ≡ b.topics)
  unfolding complete_all complete
  complete_all-Counts [] b part m n lt ready e =
      (ready, λ i. e i ∙ ap (λ k. (n i + k) % mod64) (members-nil i part), refl)
  complete_all-Counts (item ∷ items) b part m n lt ready e =
      let done = tracks.completes b.balancer part m lt ready in
      complete_all-Counts items (complete x b part) part m n lt done.0 (λ i. omega (
        arith,
        done.1 i,
        e i,
        members-cons i part item items,
        tracks.is_word (x.on_publish_complete b.balancer part) i,
      ))

  -- There is a topic of the name, with `m` partitions.
  abbrev pub Holds : List ℕ → ℕ → Broker x → Type 0
  Holds name m b =
      (t : Topic wal (Float x)) × (lookup b.topics name ≡ some t) × (length t.partitions ≡ m)

  -- What is kept while groups with these counts are not appended yet.
  abbrev pub Open : List ℕ → ℕ → (ℕ → ℕ) → (ℕ → ℕ) → Broker x → Type 0
  Open name m n more b = IsReady b.balancer m × Counts n more b.balancer × Holds name m b

  put_partition-Holds :
      (b : Broker x) (name : List ℕ) (t : Topic wal (Float x)) (part m : ℕ) (p : Partition wal.Log)
      → length t.partitions ≡ m
      → Holds name m (put_partition x b name t part p)
  unfolding put_partition
  put_partition-Holds b name t part m p e = (
    _,
    lookup-insert_same b.topics name (record t { partitions = set t.partitions part p }),
    length-set t.partitions part p ∙ e,
  )

  put_partition-balancer :
      (b : Broker x) (name : List ℕ) (t : Topic wal (Float x)) (part : ℕ) (p : Partition wal.Log)
      → (put_partition x b name t part p).balancer ≡ b.balancer
  unfolding put_partition
  put_partition-balancer b name t part p = refl

  get_partition-at :
      (t : Topic wal (Float x)) (part : ℕ) (p : Partition wal.Log)
      → part < length t.partitions
      → get_elem? t.partitions part ≡ some p
      → get_partition wal (Float x) t (pos part) ≡ some p
  unfolding get_partition
  get_partition-at t part p lt e = ground (arith, lt, e)

  after_group-Open :
      (name : List ℕ) (m : ℕ) (n : ℕ → ℕ) (batch : List Indexed) (b : Broker x) (part : ℕ)
      → part < m
      → Open name m n (λ i. members i part batch) b
      → Open name m n none_more (after_group x b part batch)
  unfolding after_group record_produce_batch
  after_group-Open name m n batch b part lt h =
      let done = complete_all-Counts batch b part m n lt h.0 h.1 in
      (done.0, done.1, (h.2.0, ap (λ ts. lookup ts name) done.2 ∙ h.2.1, h.2.2))

  module _ (pool : ℕ → List ℕ) (clock : Clock) (name : List ℕ) where
    append_partition_batch-Open :
        (part : ℕ) (batch : List Indexed) (b : Broker x) (results : List PublishResult) (m : ℕ)
        (n : ℕ → ℕ)
        → part < m
        → Open name m n (λ i. members i part batch) b
        → Open name m n none_more
            (append_partition_batch x pool clock name (part, batch) (b, results)).0
    unfolding append_partition_batch
    append_partition_batch-Open part batch b results m n lt h =
        let t = h.2.0 in
        let (p, found) = get_elem?-total t.partitions part (omega (arith, lt, h.2.2)) in
        let at = get_partition-at t part p (omega (arith, lt, h.2.2)) found in
        elim (Option-cases
          (append_group x pool clock b p (map (λ (item : Indexed). item.0) batch))) [
            | inl refused ↦
                rw (append_partition_batch, h.2.1, at, refused)
                  (after_group-Open name m n batch b part lt h)
            | inr (out, done) ↦
                let same = put_partition-balancer b name t part out.partition in
                rw (append_partition_batch, h.2.1, at, done)
                  (after_group-Open name m n batch (put_partition x b name t part out.partition)
                    part lt
                    (
                      subst (λ s. IsReady s m) (sym same) h.0,
                      λ i. ap (λ s. in_flight s i) same ∙ h.1 i,
                      put_partition-Holds b name t part m out.partition h.2.2,
                    ))
          ]

    pub append_groups-Open :
        (gs : Groups) (is_only : Bool) (acquired : ℕ → Bool) (b : Broker x)
        (results : List PublishResult) (m : ℕ) (n : ℕ → ℕ)
        → ((i : ℕ) → acquired i ≡ true)
        → AreBelow m gs
        → Open name m n (λ i. count i gs) b
        → Open name m n none_more
            (append_groups x pool clock name is_only acquired gs (b, results)).0
    unfolding append_groups count
    append_groups-Open [] is_only acquired b results m n all below h = h
    append_groups-Open ((part, batch) ∷ rest) is_only acquired b results m n all below h =
        let one =
          append_partition_batch-Open part batch b results m (λ i. n i + count i rest) below.0
            (
              h.0,
              λ i.
                  h.1 i
                  ∙ ap (λ k. k % mod64) {y = n i + count i rest + members i part batch}
                      (omega arith),
              h.2,
            ) in
        let settled = append_groups-Open rest is_only acquired step.0 step.1 m n all below.1 (
          one.0,
          λ i. one.1 i ∙ ap (λ k. k % mod64) {y = n i + count i rest} (omega arith),
          one.2,
        ) in
        subst
          (λ a. Rest (
            if is_only
            then step
            else if a
            then step
            else (b, set_errors results batch not_acquired)))
          (sym (all part)) (if-P Rest is_only settled settled)
      where
        Rest : Broker x × List PublishResult → Type 0
        Rest out =
            Open name m n none_more (append_groups x pool clock name is_only acquired rest out).0

        step : Broker x × List PublishResult
        step = append_partition_batch x pool clock name (part, batch) (b, results)
