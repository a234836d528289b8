-- ===== src/Broker/Topics/Removal.antt =====
-- What is left of a topic after `DeleteTopic`, and what is lost of others.
use nya_queue.Prelude.{
  ℕ, zero, suc, ◌≡◌, ◌≢◌, inl, inr, refl, sym, ap, ◌∙◌, subst, Bool-cases, Option-cases, Bool, none,
  some, List, [], ◌∷◌, arith, length, get_or, get_elem?, set, ltb, ltb_false→le, length-set, not,
  if◌then◌else◌,
}
use nya_queue.Prelude.Elems.{some-inj}
use nya_queue.Partition.{Partition}
use nya_queue.OffsetStore.{lookup, remove}
use nya_queue.OffsetStore.Maps.{lookup-remove_same, lookup-remove_other}
use nya_queue.Metrics
use nya_queue.Metrics.{Counts}
use nya_queue.Metrics.Counters.{get_or-behind}
use nya_queue.Topic.{Topic, close}
use nya_queue.Broker.{
  Parts, Result, ok, err, topic_not_found, close_failed, remove_dir_failed, Broker, Float,
}
use nya_queue.Broker.Topics.{stop_scheduler, forget_partitions, delete_topic, get_topic}

-- A slot that is 0 stays 0 when a slot is set to 0.
get_or-set_zero : (xs : List ℕ) (i j : ℕ) → get_or xs i 0 ≡ 0 → get_or (set xs j 0) i 0 ≡ 0
get_or-set_zero [] i j h = refl
get_or-set_zero (x ∷ xs) zero zero h = refl
get_or-set_zero (x ∷ xs) zero (suc j) h = h
get_or-set_zero (x ∷ xs) (suc i) zero h = h
get_or-set_zero (x ∷ xs) (suc i) (suc j) h = get_or-set_zero xs i j h

get_or-cleared : (xs : List ℕ) (i : ℕ) → get_or (set xs i 0) i 0 ≡ 0
get_or-cleared [] i = refl
get_or-cleared (x ∷ xs) zero = refl
get_or-cleared (x ∷ xs) (suc i) = get_or-cleared xs i

-- The counters of a number are gone.
abbrev IsCleared : Counts → ℕ → Type 0
IsCleared c i = (get_or c.part_produces i 0 ≡ 0) × (get_or c.part_consumes i 0 ≡ 0)

remove_partition-IsCleared :
    (c : Counts) (i : ℕ)
    → length c.part_consumes ≡ length c.part_produces
    → IsCleared (Metrics.remove_partition c i) i
unfolding Metrics.remove_partition
remove_partition-IsCleared c i even = elim (Bool-cases (ltb i (length c.part_produces))) [
  | inl known ↦
      ground (arith, known, get_or-cleared c.part_produces i, get_or-cleared c.part_consumes i)
  | inr unknown ↦ ground (
    arith,
    unknown,
    get_or-behind c.part_produces i (ltb_false→le _ _ unknown),
    get_or-behind c.part_consumes i (omega (arith, even, ltb_false→le _ _ unknown)),
  )
]

remove_partition-stays :
    (c : Counts) (i j : ℕ) → IsCleared c i → IsCleared (Metrics.remove_partition c j) i
unfolding Metrics.remove_partition
remove_partition-stays c i j h =
    ground
      (arith, h, get_or-set_zero c.part_produces i j h.0, get_or-set_zero c.part_consumes i j h.1)

remove_partition-even :
    (c : Counts) (i : ℕ)
    → length c.part_consumes ≡ length c.part_produces
    → length (Metrics.remove_partition c i).part_consumes
      ≡ length (Metrics.remove_partition c i).part_produces
unfolding Metrics.remove_partition
remove_partition-even c i even =
    ground (arith, even, length-set c.part_consumes i 0, length-set c.part_produces i 0)

module _ (x : Parts) where
  open x use {wal}

  forget_partitions-topics :
      (ps : List (Partition wal.Log)) (b : Broker x)
      → ((forget_partitions x b ps).topics ≡ b.topics)
        × ((forget_partitions x b ps).schedulers ≡ b.schedulers)
  unfolding forget_partitions
  forget_partitions-topics [] b = (refl, refl)
  forget_partitions-topics (p ∷ ps) b = forget_partitions-topics ps _

  -- What is cleared stays so.
  forget_partitions-stays :
      (ps : List (Partition wal.Log)) (b : Broker x) (i : ℕ)
      → IsCleared b.collector.counts i
      → IsCleared (forget_partitions x b ps).collector.counts i
  unfolding forget_partitions
  forget_partitions-stays [] b i h = h
  forget_partitions-stays (p ∷ ps) b i h =
      forget_partitions-stays ps _ i (remove_partition-stays b.collector.counts i p.id h)

  forget_partitions-IsCleared :
      (ps : List (Partition wal.Log)) (b : Broker x) (k : ℕ) (p : Partition wal.Log)
      → length b.collector.counts.part_consumes ≡ length b.collector.counts.part_produces
      → get_elem? ps k ≡ some p
      → IsCleared (forget_partitions x b ps).collector.counts p.id
  unfolding forget_partitions
  forget_partitions-IsCleared [] b k p even e = absurd (ground (arith, e))
  forget_partitions-IsCleared (q ∷ ps) b zero p even e =
      subst
        (λ (r : Partition wal.Log).
          IsCleared (forget_partitions x b (q ∷ ps)).collector.counts r.id)
        (some-inj e)
        (forget_partitions-stays ps _ q.id
          (remove_partition-IsCleared b.collector.counts q.id even))
  forget_partitions-IsCleared (q ∷ ps) b (suc k) p even e =
      forget_partitions-IsCleared ps _ k p (remove_partition-even b.collector.counts q.id even) e

  -- The broker without the topic and its scheduler.
  abbrev gone : Broker x → List ℕ → Broker x
  gone b name = record b { topics = remove b.topics name; schedulers = remove b.schedulers name }

  -- What `DeleteTopic` does, by its result, to a topic that there was.
  delete_topic-some :
      (b : Broker x) (removed : Bool) (name : List ℕ) (t : Topic wal (Float x))
      → lookup b.topics name ≡ some t
      → ((delete_topic x b removed name).1.topics ≡ remove b.topics name)
        × ((delete_topic x b removed name).1.schedulers ≡ remove b.schedulers name)
  unfolding delete_topic stop_scheduler
  delete_topic-some b removed name t e =
      ground (arith, e, forget_partitions-topics t.partitions (gone b name))

  delete_topic-none :
      (b : Broker x) (removed : Bool) (name : List ℕ)
      → lookup b.topics name ≡ none
      → delete_topic x b removed name ≡ (err topic_not_found, b)
  unfolding delete_topic
  delete_topic-none b removed name e = ground (arith, e)

  delete_topic-ok :
      (b : Broker x) (removed : Bool) (name : List ℕ) (t : Topic wal (Float x))
      → lookup b.topics name ≡ some t
      → (delete_topic x b removed name).0 ≡ ok tt
      → (delete_topic x b removed name).1.collector
        ≡ (forget_partitions x (gone b name) t.partitions).collector
  unfolding delete_topic stop_scheduler
  delete_topic-ok b removed name t e done = ground (arith, e, done)

  get_topic-removed :
      (b b' : Broker x) (name : List ℕ)
      → b'.topics ≡ remove b.topics name
      → (get_topic x b' name ≡ err topic_not_found)
        × ((other : List ℕ) → name ≢ other → get_topic x b' other ≡ get_topic x b other)
  unfolding get_topic
  get_topic-removed b b' name e = (
    ground (arith, ap (λ m. lookup m name) e ∙ lookup-remove_same b.topics name),
    λ other ne.
        ground (arith, ap (λ m. lookup m other) e ∙ lookup-remove_other b.topics name other ne),
  )

  -- A topic that there is not is not removed.
  get_topic-none :
      (b : Broker x) (name : List ℕ)
      → lookup b.topics name ≡ none
      → get_topic x b name ≡ err topic_not_found
  unfolding get_topic
  get_topic-none b name e = ground (arith, e)

  -- The result for a topic that there was.
  abbrev pub outcome : Bool → Topic wal (Float x) → Result (Unit {0})
  outcome removed t =
      if not (close wal (Float x) x.close_log t).0
      then err close_failed
      else if not removed
      then err remove_dir_failed
      else ok tt

  delete_topic-outcome :
      (b : Broker x) (removed : Bool) (name : List ℕ) (t : Topic wal (Float x))
      → lookup b.topics name ≡ some t
      → (delete_topic x b removed name).0 ≡ outcome removed t
  unfolding delete_topic
  delete_topic-outcome b removed name t e = ground (arith, e)

  -- After `DeleteTopic`, whatever it returns, there is no topic of that name, and all other topics
  -- are as they were. If there was none of that name it returns that error and changes nothing. If
  -- there was one, there is no scheduler for the name any more, and it returns an error exactly when
  -- a partition of the topic could not be closed or else its directory could not be removed.
  pub delete_topic-get_topic :
      (b : Broker x) (removed : Bool) (name : List ℕ)
      → let (out, b') = delete_topic x b removed name in
        (get_topic x b' name ≡ err topic_not_found)
        × ((other : List ℕ) → name ≢ other → get_topic x b' other ≡ get_topic x b other)
        × (lookup b.topics name ≡ none → (out ≡ err topic_not_found) × (b' ≡ b))
        × ((t : Topic wal (Float x))
            → lookup b.topics name ≡ some t
            → (out ≡ outcome removed t) × (lookup b'.schedulers name ≡ none))
  delete_topic-get_topic b removed name = elim (Option-cases (lookup b.topics name)) [
    | inl e ↦
        let same = delete_topic-none b removed name e in
        let kept = ap (λ (o : Result (Unit {0}) × Broker x). o.1) same in
        (
          ap (λ c. get_topic x c name) kept ∙ get_topic-none b name e,
          λ other ne. ap (λ c. get_topic x c other) kept,
          λ none_there. (ap (λ (o : Result (Unit {0}) × Broker x). o.0) same, kept),
          λ t there. absurd (ground (arith, e, there)),
        )
    | inr (t, e) ↦
        let taken = delete_topic-some b removed name t e in
        let found = get_topic-removed b (delete_topic x b removed name).1 name taken.0 in
        (
          found.0,
          found.1,
          λ none_there. absurd (ground (arith, e, none_there)),
          λ u there. (
            delete_topic-outcome b removed name u there,
            ap (λ m. lookup m name) taken.1 ∙ lookup-remove_same b.schedulers name,
          ),
        )
  ]

  -- When `DeleteTopic` succeeds, the counters of produced and consumed messages are 0 for every
  -- number that a partition of the topic had, also when another topic has a partition of that number
  -- and messages pending there: the counters are shared by all topics. Condition: there were as many
  -- counters of either kind.
  pub delete_topic-clears_shared :
      (b : Broker x) (removed : Bool) (name : List ℕ) (t : Topic wal (Float x)) (k : ℕ)
      (p : Partition wal.Log)
      → length b.collector.counts.part_consumes ≡ length b.collector.counts.part_produces
      → lookup b.topics name ≡ some t
      → get_elem? t.partitions k ≡ some p
      → (delete_topic x b removed name).0 ≡ ok tt
      → let c = (delete_topic x b removed name).1.collector.counts in
        (get_or c.part_produces p.id 0 ≡ 0) × (get_or c.part_consumes p.id 0 ≡ 0)
  delete_topic-clears_shared b removed name t k p even e at done =
      subst (λ (mc : Metrics.Collector x.floats x.statistics). IsCleared mc.counts p.id)
        (sym (delete_topic-ok b removed name t e done))
        (forget_partitions-IsCleared t.partitions (gone b name) k p even at)
