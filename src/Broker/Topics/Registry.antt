-- ===== src/Broker/Topics/Registry.antt =====
-- Which topics there are after `CreateTopic` and `DeleteTopic`.
use nya_queue.Prelude.{
  ℕ, zero, suc, ◌+◌, ◌≡◌, ◌≢◌, inl, inr, refl, sym, ap, ◌∙◌, subst, Option-cases, Bool, true, false,
  Option, none, some, List, [], ◌∷◌, arith, map, not, length, length-map, if◌then◌else◌,
}
use nya_queue.Prelude.Int.{pos}
use nya_queue.Partition
use nya_queue.Partition.{Result-cases, Partition, ScheduleMode}
use nya_queue.Codec.{Codec}
use nya_queue.Partition.Methods.{new_partition, set_batch_codec}
use nya_queue.OffsetStore.{lookup, insert}
use nya_queue.OffsetStore.Maps.{lookup-insert_same, lookup-insert_other}
use nya_queue.Config.{SyncPolicy, TopicConfig, eq_ℤ}
use nya_queue.Topic.{Topic, new_topic, open_partitions, partition_count}
use nya_queue.Broker.{
  Parts, Result, ok, err, topic_already_exists, topic_not_found, topic_failed, Broker, Float,
}
use nya_queue.Broker.Topics.{with_codec, create_topic, get_topic}

ok-inj :
    {A : Type 0} {a b : A} → ◌≡◌ {A = Partition.Result A} (Partition.ok a) (Partition.ok b) → a ≡ b
ok-inj e = cc

module _ (x : Parts) where
  open x use {wal}

  -- The partitions are numbered from `i` on.
  abbrev pub IsNumbered : ℕ → List (Partition wal.Log) → Type 0
  IsNumbered i [] = Unit {0}
  IsNumbered i (p ∷ ps) = (p.id ≡ i) × IsNumbered (i + 1) ps

  new_partition-id :
      (i : ℕ) (name : List ℕ) (mode : ScheduleMode) (opened : Option wal.Log)
      (p : Partition wal.Log)
      → new_partition wal i name mode opened ≡ Partition.ok p
      → p.id ≡ i
  unfolding new_partition
  new_partition-id i name mode none p e = absurd (ground (arith, e))
  new_partition-id i name mode (some log) p e = ground (arith, e)

  open_partitions-IsNumbered :
      (opened : ℕ → Option wal.Log) (name : List ℕ) (mode : ScheduleMode) (i n : ℕ)
      (ps : List (Partition wal.Log))
      → open_partitions wal (Float x) opened name mode i n ≡ Partition.ok ps
      → (length ps ≡ n) × IsNumbered i ps
  unfolding open_partitions
  open_partitions-IsNumbered opened name mode i zero [] e = (refl, tt)
  open_partitions-IsNumbered opened name mode i zero (p ∷ ps) e = absurd (ground (arith, e))
  open_partitions-IsNumbered opened name mode i (suc n) ps e =
      step (new_partition wal i name mode (opened i))
        (open_partitions wal (Float x) opened name mode (i + 1) n)
        (λ p h. new_partition-id i name mode (opened i) p h)
        (λ qs h. open_partitions-IsNumbered opened name mode (i + 1) n qs h) ps e
    where
      step :
          (first : Partition.Result (Partition wal.Log))
          (rest : Partition.Result (List (Partition wal.Log)))
          → ((p : Partition wal.Log) → first ≡ Partition.ok p → p.id ≡ i)
          → ((qs : List (Partition wal.Log))
              → rest ≡ Partition.ok qs
              → (length qs ≡ n) × IsNumbered (i + 1) qs)
          → (ps : List (Partition wal.Log))
          → ◌≡◌ {A = Partition.Result (List (Partition wal.Log))}
              (elim first [
                | Partition.err e ↦ Partition.err e
                | Partition.ok p ↦ elim rest [
                  | Partition.err e ↦ Partition.err e
                  | Partition.ok qs ↦ Partition.ok (p ∷ qs)
                ]
              ])
              (Partition.ok ps)
          → (length ps ≡ suc n) × IsNumbered i ps
      step (Partition.err e) rest f g ps h = absurd (ground (arith, h))
      step (Partition.ok p) (Partition.err e) f g ps h = absurd (ground (arith, h))
      step (Partition.ok p) (Partition.ok qs) f g [] h = absurd (ground (arith, h))
      step (Partition.ok p) (Partition.ok qs) f g (q ∷ rs) h =
          let later = g qs refl in
          subst (λ ts. (length ts ≡ suc n) × IsNumbered i ts) (ok-inj h)
            (ap suc later.0, (f p refl, later.1))

  codec-IsNumbered :
      (c : Codec) (ps : List (Partition wal.Log)) (i : ℕ)
      → IsNumbered i ps
      → IsNumbered i (map (λ p. set_batch_codec wal p c) ps)
  unfolding set_batch_codec
  codec-IsNumbered c [] i h = tt
  codec-IsNumbered c (p ∷ ps) i h = (h.0, codec-IsNumbered c ps (i + 1) h.1)

  -- A topic as `CreateTopic` makes it.
  abbrev pub IsNew : List ℕ → TopicConfig (Float x) → Topic wal (Float x) → Type 0
  IsNew name cfg t =
      (t.name ≡ name)
      × (t.is_closed ≡ false)
      × (length t.partitions ≡ partition_count wal (Float x) cfg.num_partitions)
      × IsNumbered 0 t.partitions

  new_topic-IsNew :
      (opened : ℕ → Option wal.Log) (name : List ℕ) (cfg : TopicConfig (Float x))
      (t : Topic wal (Float x))
      → new_topic wal (Float x) opened name cfg ≡ Partition.ok t
      → IsNew name cfg t
  unfolding new_topic
  new_topic-IsNew opened name cfg t e =
      step (open_partitions wal (Float x) opened name cfg.schedule_mode 0 n)
        (λ ps h. open_partitions-IsNumbered opened name cfg.schedule_mode 0 n ps h) e
    where
      n : ℕ
      n = partition_count wal (Float x) cfg.num_partitions

      made : List (Partition wal.Log) → Topic wal (Float x)
      made ps = record {
        name = name;
        partitions = ps;
        config = record cfg { num_partitions = pos n };
        is_closed = false;
      }

      step :
          (out : Partition.Result (List (Partition wal.Log)))
          → ((ps : List (Partition wal.Log))
              → out ≡ Partition.ok ps
              → (length ps ≡ n) × IsNumbered 0 ps)
          → ◌≡◌ {A = Partition.Result (Topic wal (Float x))}
              (elim out [
                | Partition.err e ↦ Partition.err e
                | Partition.ok ps ↦ Partition.ok (made ps)
              ])
              (Partition.ok t)
          → IsNew name cfg t
      step (Partition.err e) f h = absurd (ground (arith, h))
      step (Partition.ok ps) f h =
          let opened_all = f ps refl in
          subst (IsNew name cfg) (ok-inj h) (refl, refl, opened_all.0, opened_all.1)

  with_codec-IsNew :
      (b : Broker x) (name : List ℕ) (cfg : TopicConfig (Float x)) (t : Topic wal (Float x))
      → IsNew name cfg t
      → IsNew name cfg (with_codec x b t)
  unfolding with_codec
  with_codec-IsNew b name cfg t h = step (not (eq_ℤ b.config.compression_type (pos 0)))
    where
      step :
          (compressing : Bool)
          → IsNew name cfg (
              if compressing
              then record t { partitions = map (λ p. set_batch_codec wal p b.codec) t.partitions }
              else t)
      step false = h
      step true = (
        h.0,
        h.1,
        length-map (λ p. set_batch_codec wal p b.codec) t.partitions ∙ h.2,
        codec-IsNumbered b.codec t.partitions 0 h.3,
      )

  -- What `CreateTopic` does, by its result.
  abbrev pub Creation :
      Broker x → Broker x → List ℕ → TopicConfig (Float x) → Result (Unit {0}) → Type 0
  Creation b b' name cfg (err e) = b' ≡ b
  Creation b b' name cfg (ok _) =
      (get_topic x b name ≡ err topic_not_found)
      × ((t : Topic wal (Float x)) × (get_topic x b' name ≡ ok t) × IsNew name cfg t)
      × ((other : List ℕ) → name ≢ other → get_topic x b' other ≡ get_topic x b other)

  -- The broker with the topic in it.
  with_topic : Broker x → Topic wal (Float x) → List ℕ → TopicConfig (Float x) → Broker x
  with_topic b t name cfg = record b {
    topics = insert b.topics name (with_codec x b t);
    schedulers = elim b.scheduler_factory [
      | none ↦ b.schedulers
      | some fn ↦ insert b.schedulers name (fn cfg)
    ];
  }

  with_topic-Creation :
      (b : Broker x) (t : Topic wal (Float x)) (name : List ℕ) (cfg : TopicConfig (Float x))
      → lookup b.topics name ≡ none
      → IsNew name cfg t
      → Creation b (with_topic b t name cfg) name cfg (ok tt)
  unfolding get_topic with_topic
  with_topic-Creation b t name cfg e h = (
    ground (arith, e),
    (
      with_codec x b t,
      ground (arith, lookup-insert_same b.topics name (with_codec x b t)),
      with_codec-IsNew b name cfg t h,
    ),
    λ other ne. ground (arith, lookup-insert_other b.topics name other (with_codec x b t) ne),
  )

  create_topic-fails :
      (b : Broker x) (opened : SyncPolicy → ℕ → Option wal.Log) (name : List ℕ)
      (cfg : TopicConfig (Float x)) (e : Partition.Error)
      → new_topic wal (Float x) (opened b.config.sync_policy) name cfg ≡ Partition.err e
      → create_topic x b opened name cfg ≡ (err (topic_failed e), b)
  unfolding create_topic
  create_topic-fails b opened name cfg e h = ground (arith, h)

  create_topic-exists :
      (b : Broker x) (opened : SyncPolicy → ℕ → Option wal.Log) (name : List ℕ)
      (cfg : TopicConfig (Float x)) (t old : Topic wal (Float x))
      → new_topic wal (Float x) (opened b.config.sync_policy) name cfg ≡ Partition.ok t
      → lookup b.topics name ≡ some old
      → create_topic x b opened name cfg ≡ (err topic_already_exists, b)
  unfolding create_topic
  create_topic-exists b opened name cfg t old h e = ground (arith, h, e)

  create_topic-makes :
      (b : Broker x) (opened : SyncPolicy → ℕ → Option wal.Log) (name : List ℕ)
      (cfg : TopicConfig (Float x)) (t : Topic wal (Float x))
      → new_topic wal (Float x) (opened b.config.sync_policy) name cfg ≡ Partition.ok t
      → lookup b.topics name ≡ none
      → create_topic x b opened name cfg ≡ (ok tt, with_topic b t name cfg)
  unfolding create_topic with_topic
  create_topic-makes b opened name cfg t h e = ground (arith, h, e)

  -- `CreateTopic` either returns an error, and the broker is as it was; or there was no topic of that
  -- name, there is one now, with that name, open, with as many partitions as the configuration says
  -- (4 if it says none) that are numbered from 0 on, and all other topics are as they were.
  pub create_topic-Creation :
      (b : Broker x) (opened : SyncPolicy → ℕ → Option wal.Log) (name : List ℕ)
      (cfg : TopicConfig (Float x))
      → Creation b
          (create_topic x b opened name cfg).1
          name
          cfg
          (create_topic x b opened name cfg).0
  create_topic-Creation b opened name cfg =
      elim (Result-cases (new_topic wal (Float x) (opened b.config.sync_policy) name cfg)) [
        | inl (e, h) ↦
            subst (λ (o : Result (Unit {0}) × Broker x). Creation b o.1 name cfg o.0)
              (sym (create_topic-fails b opened name cfg e h)) refl
        | inr (t, h) ↦ elim (Option-cases (lookup b.topics name)) [
          | inr (old, e) ↦
              subst (λ (o : Result (Unit {0}) × Broker x). Creation b o.1 name cfg o.0)
                (sym (create_topic-exists b opened name cfg t old h e)) refl
          | inl e ↦
              subst (λ (o : Result (Unit {0}) × Broker x). Creation b o.1 name cfg o.0)
                (sym (create_topic-makes b opened name cfg t h e))
                (with_topic-Creation b t name cfg e
                  (new_topic-IsNew (opened b.config.sync_policy) name cfg t h))
        ]
      ]
