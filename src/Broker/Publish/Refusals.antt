-- ===== src/Broker/Publish/Refusals.antt =====
-- What `Publish` leaves when it returns an error, and when it does not.
use nya_queue.Prelude.{
  ℕ, ◌<◌, ◌%◌, ◌+◌, ◌≡◌, ◌⊎◌, inl, inr, refl, sym, ap, ◌∙◌, subst, Bool-cases, Option-cases, Bool,
  true, false, none, some, List, arith,
}
use nya_queue.Prelude.Int.{pos}
use nya_queue.Prelude.Elems.{get_elem?-total}
use nya_queue.Prelude.Words.{mod64}
use nya_queue.Balancer.P2c.Inflight.{one_if}
use nya_queue.Message.{Message}
use nya_queue.Partition
use nya_queue.Partition.{Result-cases, Partition, Clock}
use nya_queue.Partition.Methods.{append}
use nya_queue.OffsetStore.{lookup}
use nya_queue.Topic.{Topic, num_partitions, get_partition}
use nya_queue.Broker.{
  Parts, Result, ok, err, topic_not_found, throttled, message_too_large, compress_failed,
  partition_out_of_range, append_failed, Broker, Float, put_partition,
}
use nya_queue.Broker.Publish.{
  is_too_large, compress_message, produced_at, Published, is_refused, record_produce, complete,
  publish_to, publish_in, publish,
}

module _ (x : Parts) where
  open x use {wal, BalancerState}

  -- The publishes in flight to each partition, as a balancer counts them in machine words. It is
  -- ready for a number of partitions when it has a counter for each.
  pub record Tracks (IsReady : BalancerState → ℕ → Type 0) (in_flight : BalancerState → ℕ → ℕ)
      : Type 0 where
    pub is_word : (s : BalancerState) (i : ℕ) → in_flight s i < mod64
    pub selects :
        (s : BalancerState) (topic key : List ℕ) (n : ℕ)
        → 0 < n
        → IsReady s n
        → let (part, s') = x.select_partition s topic key n in
          (part < n)
          × IsReady s' n
          × ((i : ℕ) → in_flight s' i ≡ (in_flight s i + one_if i part) % mod64)
    pub completes :
        (s : BalancerState) (part n : ℕ)
        → part < n
        → IsReady s n
        → IsReady (x.on_publish_complete s part) n
          × ((i : ℕ)
              → (in_flight (x.on_publish_complete s part) i + one_if i part) % mod64
                ≡ in_flight s i)

  pub is_refused-kept :
      (b : Broker x) (part : ℕ)
      → ((is_refused x b part).1.balancer ≡ b.balancer)
        × ((is_refused x b part).1.topics ≡ b.topics)
        × ((is_refused x b part).1.schedulers ≡ b.schedulers)
        × ((is_refused x b part).1.codec ≡ b.codec)
        × ((is_refused x b part).1.config ≡ b.config)
        × ((is_refused x b part).1.io_slots ≡ b.io_slots)
        × ((is_refused x b part).1.offset_store ≡ b.offset_store)
  unfolding is_refused
  is_refused-kept b part = elim (Option-cases b.backpressure) [
    | inl e ↦ ground (arith, e)
    | inr (bp, e) ↦ ground (arith, e)
  ]

  -- All counters are the same, or all but one, which is one larger.
  abbrev pub SameCounts : (BalancerState → ℕ → ℕ) → BalancerState → BalancerState → Type 0
  SameCounts in_flight s s' = (i : ℕ) → in_flight s' i ≡ in_flight s i

  abbrev pub OneMore : (BalancerState → ℕ → ℕ) → BalancerState → BalancerState → ℕ → Type 0
  OneMore in_flight s s' part = (i : ℕ) → in_flight s' i ≡ (in_flight s i + one_if i part) % mod64

  -- By its result, what a publish leaves of the broker, of the message and of what is in flight.
  abbrev pub Outcome :
      (BalancerState → ℕ → ℕ) → Broker x → Message → Published x → Result (ℕ × ℕ) → Type 0
  Outcome in_flight b m out (ok _) = SameCounts in_flight b.balancer out.broker.balancer
  Outcome in_flight b m out (err (append_failed _)) =
      SameCounts in_flight b.balancer out.broker.balancer
  Outcome in_flight b m out (err throttled) =
      (out.broker.topics ≡ b.topics)
      × (compress_message m b.codec ≡ some out.message)
      × ((part : ℕ) × OneMore in_flight b.balancer out.broker.balancer part)
  Outcome in_flight b m out (err (partition_out_of_range _ _)) = ⊥
  Outcome in_flight b m out (err topic_not_found) =
      (out.broker ≡ b) × (compress_message m b.codec ≡ some out.message)
  Outcome in_flight b m out (err _) = (out.broker ≡ b) × (out.message ≡ m)

  -- The choice of a partition, and the verdict on it.
  abbrev pub selected : Broker x → List ℕ → Topic wal (Float x) → Message → ℕ × BalancerState
  selected b name t m = x.select_partition b.balancer name m.key (num_partitions wal (Float x) t)

  abbrev pub verdict : Broker x → List ℕ → Topic wal (Float x) → Message → Bool × Broker x
  verdict b name t m =
      let (part, bal) = selected b name t m in is_refused x (record b { balancer = bal }) part

  publish_to-balancer :
      (pool : ℕ → List ℕ) (clock : Clock) (now : ℕ) (b : Broker x) (name : List ℕ)
      (t : Topic wal (Float x)) (part : ℕ) (p : Partition wal.Log) (m : Message)
      → (publish_to x pool clock now b name t part p m).broker.balancer
        ≡ x.on_publish_complete b.balancer part
  unfolding publish_to complete record_produce put_partition
  publish_to-balancer pool clock now b name t part p m =
      elim (Result-cases (append wal pool clock p (produced_at now m)).0) [
        | inl (e, h) ↦ ground (arith, h)
        | inr (o, h) ↦ ground (arith, h)
      ]

  -- An append that fails, or that does not.
  publish_to-result :
      (pool : ℕ → List ℕ) (clock : Clock) (now : ℕ) (b : Broker x) (name : List ℕ)
      (t : Topic wal (Float x)) (part : ℕ) (p : Partition wal.Log) (m : Message)
      → ((e : Partition.Error) × ((publish_to x pool clock now b name t part p m).result
            ≡ err (append_failed e)))
        ⊎ ((o : ℕ × ℕ) × ((publish_to x pool clock now b name t part p m).result ≡ ok o))
  unfolding publish_to
  publish_to-result pool clock now b name t part p m =
      elim (Result-cases (append wal pool clock p (produced_at now m)).0) [
        | inl (e, h) ↦ inl (e, ground (arith, h))
        | inr (o, h) ↦ inr ((part, o), ground (arith, h))
      ]

  module _ (pool : ℕ → List ℕ) (clock : Clock) (now : ℕ) (b : Broker x) (name : List ℕ) where
    pub publish_in-refused :
        (t : Topic wal (Float x)) (m : Message)
        → (verdict b name t m).0 ≡ true
        → publish_in x pool clock now b name t m
          ≡ record { result = err throttled; message = m; broker = (verdict b name t m).1 }
    unfolding publish_in
    publish_in-refused t m e = ground (arith, e)

    pub publish_in-none :
        (t : Topic wal (Float x)) (m : Message)
        → (verdict b name t m).0 ≡ false
        → get_partition wal (Float x) t (pos (selected b name t m).0) ≡ none
        → publish_in x pool clock now b name t m ≡ record {
          result =
              err (partition_out_of_range (selected b name t m).0 (num_partitions wal (Float x) t));
          message = m;
          broker = (verdict b name t m).1;
        }
    unfolding publish_in
    publish_in-none t m e h = ground (arith, e, h)

    pub publish_in-some :
        (t : Topic wal (Float x)) (m : Message) (p : Partition wal.Log)
        → (verdict b name t m).0 ≡ false
        → get_partition wal (Float x) t (pos (selected b name t m).0) ≡ some p
        → publish_in x pool clock now b name t m
          ≡ publish_to x pool clock now (verdict b name t m).1 name t (selected b name t m).0 p m
    unfolding publish_in
    publish_in-some t m p e h = ground (arith, e, h)

    pub publish-too_large :
        (m : Message)
        → is_too_large b.config m ≡ true
        → publish x pool clock now b name m
          ≡ record { result = err message_too_large; message = m; broker = b }
    unfolding publish
    publish-too_large m e = ground (arith, e)

    pub publish-not_packed :
        (m : Message)
        → is_too_large b.config m ≡ false
        → compress_message m b.codec ≡ none
        → publish x pool clock now b name m
          ≡ record { result = err compress_failed; message = m; broker = b }
    unfolding publish
    publish-not_packed m e h = ground (arith, e, h)

    pub publish-unknown :
        (m packed : Message)
        → is_too_large b.config m ≡ false
        → compress_message m b.codec ≡ some packed
        → lookup b.topics name ≡ none
        → publish x pool clock now b name m
          ≡ record { result = err topic_not_found; message = packed; broker = b }
    unfolding publish
    publish-unknown m packed e h k = ground (arith, e, h, k)

    pub publish-known :
        (m packed : Message) (t : Topic wal (Float x))
        → is_too_large b.config m ≡ false
        → compress_message m b.codec ≡ some packed
        → lookup b.topics name ≡ some t
        → publish x pool clock now b name m ≡ publish_in x pool clock now b name t packed
    unfolding publish
    publish-known m packed t e h k = ground (arith, e, h, k)

    -- A partition that there is is found.
    found :
        (t : Topic wal (Float x)) (part : ℕ)
        → part < num_partitions wal (Float x) t
        → get_partition wal (Float x) t (pos part) ≡ none
        → ⊥
    unfolding get_partition num_partitions
    found t part lt e =
        let (p, at) = get_elem?-total t.partitions part lt in ground (arith, lt, at, e)

    module _ (IsReady : BalancerState → ℕ → Type 0) (in_flight : BalancerState → ℕ → ℕ)
        (tracks : Tracks IsReady in_flight) where
      -- From the choice of a partition on.
      publish_in-Outcome :
          (m packed : Message) (t : Topic wal (Float x))
          → compress_message m b.codec ≡ some packed
          → 0 < num_partitions wal (Float x) t
          → IsReady b.balancer (num_partitions wal (Float x) t)
          → let out = publish_in x pool clock now b name t packed in
            Outcome in_flight b m out out.result
      publish_in-Outcome m packed t e some_partition ready =
          elim (Bool-cases (verdict b name t packed).0) [
            | inl refused ↦
                subst (λ (o : Published x). Outcome in_flight b m o o.result)
                  (sym (publish_in-refused t packed refused)) (kept.1, e, (part, one_more))
            | inr passed ↦
                elim (Option-cases
                  (get_partition wal (Float x) t (pos (selected b name t packed).0))) [
                    | inl h ↦ absurd (found t part chosen.0 h)
                    | inr (p, h) ↦
                        subst (λ (o : Published x). Outcome in_flight b m o o.result)
                          (sym (publish_in-some t packed p passed h)) (appended p)
                  ]
          ]
        where
          n : ℕ
          n = num_partitions wal (Float x) t

          part : ℕ
          part = (selected b name t packed).0

          checked : Broker x
          checked = (verdict b name t packed).1

          chosen :
              (part < n)
              × IsReady (selected b name t packed).1 n
              × OneMore in_flight b.balancer (selected b name t packed).1 part
          chosen = tracks.selects b.balancer name packed.key n some_partition ready

          kept : (checked.balancer ≡ (selected b name t packed).1) × (checked.topics ≡ b.topics)
          kept =
              let k = is_refused-kept (record b { balancer = (selected b name t packed).1 }) part in
              (k.0, k.1)

          one_more : OneMore in_flight b.balancer checked.balancer part
          one_more i = ap (λ s. in_flight s i) kept.0 ∙ chosen.2 i

          appended :
              (p : Partition wal.Log)
              → let out = publish_to x pool clock now checked name t part p packed in
                Outcome in_flight b m out out.result
          appended p =
              let out = publish_to x pool clock now checked name t part p packed in
              let done =
                tracks.completes checked.balancer part n chosen.0
                  (subst (λ s. IsReady s n) (sym kept.0) chosen.1) in
              let same : SameCounts in_flight b.balancer out.broker.balancer = λ i.
                ap (λ s. in_flight s i)
                  (publish_to-balancer pool clock now checked name t part p packed)
                ∙ omega (
                  arith,
                  done.1 i,
                  one_more i,
                  tracks.is_word b.balancer i,
                  tracks.is_word (x.on_publish_complete checked.balancer part) i,
                ) in
              elim (publish_to-result pool clock now checked name t part p packed) [
                | inl (er, h) ↦ subst (Outcome in_flight b m out) (sym h) same
                | inr (o, h) ↦ subst (Outcome in_flight b m out) (sym h) same
              ]

      -- Let a balancer count the publishes in flight to each partition modulo 2 ^ 64, one more for a
      -- choice of the partition and one less for a completion, and be ready for the partitions of the
      -- topic, if there is such a topic, of which there is at least one. When `Publish` succeeds, or
      -- the append fails, all counters are as they were. When it is throttled, the counter of one
      -- partition is one larger, all others and the topics are as they were, and the caller's message
      -- is left compressed. When there is no topic the message is left compressed too, and the broker
      -- is as it was. With any other error both are. A partition out of range is not an outcome.
      pub publish-Outcome :
          (m : Message)
          → ((t : Topic wal (Float x))
              → lookup b.topics name ≡ some t
              → (0 < num_partitions wal (Float x) t)
                × IsReady b.balancer (num_partitions wal (Float x) t))
          → let out = publish x pool clock now b name m in Outcome in_flight b m out out.result
      publish-Outcome m ready = elim (Bool-cases (is_too_large b.config m)) [
        | inl e ↦
            subst (λ (o : Published x). Outcome in_flight b m o o.result)
              (sym (publish-too_large m e)) (refl, refl)
        | inr e ↦ elim (Option-cases (compress_message m b.codec)) [
          | inl h ↦
              subst (λ (o : Published x). Outcome in_flight b m o o.result)
                (sym (publish-not_packed m e h)) (refl, refl)
          | inr (packed, h) ↦ elim (Option-cases (lookup b.topics name)) [
            | inl k ↦
                subst (λ (o : Published x). Outcome in_flight b m o o.result)
                  (sym (publish-unknown m packed e h k)) (refl, h)
            | inr (t, k) ↦
                subst (λ (o : Published x). Outcome in_flight b m o o.result)
                  (sym (publish-known m packed t e h k))
                  (publish_in-Outcome m packed t h (ready t k).0 (ready t k).1)
          ]
        ]
      ]
