-- ===== src/Broker/Batch/InFlight.antt =====
-- What `PublishBatch` leaves of the publishes in flight that a balancer counts.
use nya_queue.Prelude.{
  ◌%◌, subst, sym, ℕ, ◌+◌, ◌<◌, ◌≡◌, refl, ap, ◌∙◌, Option-cases, inl, inr, Bool, true, some, List,
  [], ◌∷◌, arith, length, replicate, ◌==◌,
}
use nya_queue.Prelude.Words.{mod64}
use nya_queue.Balancer.P2c.Inflight.{one_if}
use nya_queue.Message.{Message}
use nya_queue.Partition.{Clock}
use nya_queue.OffsetStore.{lookup}
use nya_queue.Topic.{Topic, num_partitions}
use nya_queue.Broker.{Parts, Broker, Float}
use nya_queue.Broker.Publish.{is_too_large, produced_at, is_refused, complete}
use nya_queue.Broker.Publish.Refusals.{Tracks, SameCounts, OneMore, is_refused-kept}
use nya_queue.Broker.Batch.{no_result, Groups, Sorted, sort_message, sort_messages, publish_batch}
use nya_queue.Broker.Batch.Completion.{
  count, count-add_to_group, if-P, AreBelow, add_to_group-AreBelow, Holds, Open, append_groups-Open,
}

module _ (x : Parts) (IsReady : x.BalancerState → ℕ → Type 0) (in_flight : x.BalancerState → ℕ → ℕ)
    (tracks : Tracks x IsReady in_flight) where
  open x use {wal}

  -- What the loop over the messages keeps.
  abbrev IsCounted : List ℕ → ℕ → (ℕ → ℕ) → Sorted x → Type 0
  IsCounted name m n s =
      Open x IsReady in_flight tracks name m n (λ i. count i s.groups) s.broker
      × AreBelow m s.groups

  module _ (now : ℕ) (name : List ℕ) (t : Topic wal (Float x))
      (some_partition : 0 < length t.partitions) where
    sort_message-IsCounted :
        (i : ℕ) (msg : Message) (s : Sorted x) (n : ℕ → ℕ)
        → IsCounted name (length t.partitions) n s
        → IsCounted name (length t.partitions) n (sort_message x now name t i msg s)
    unfolding sort_message num_partitions complete
    sort_message-IsCounted i msg s n h =
        if-P (IsCounted name (length t.partitions) n) (is_too_large s.broker.config msg) h (
          if-P (IsCounted name (length t.partitions) n) (is_refused x selected part).0
            (
              (
                done.0,
                λ k. omega (
                  arith,
                  done.1 k,
                  one_more k,
                  tracks.is_word (x.on_publish_complete checked.balancer part) k,
                ),
                kept_topic,
              ),
              h.1,
            )
            (
              (
                subst (λ b. IsReady b (length t.partitions)) (sym same) chosen.1,
                λ k. omega (
                  arith,
                  one_more k,
                  count-add_to_group k s.groups part (produced_at now msg, i),
                ),
                kept_topic,
              ),
              add_to_group-AreBelow (length t.partitions) s.groups part (produced_at now msg, i)
                  chosen.0 h.1,
            ))
      where
        part : ℕ
        part = (x.select_partition s.broker.balancer name msg.key (length t.partitions)).0

        selected : Broker x
        selected = record s.broker {
          balancer = (x.select_partition s.broker.balancer name msg.key (length t.partitions)).1;
        }

        checked : Broker x
        checked = (is_refused x selected part).1

        same : checked.balancer ≡ selected.balancer
        same = (is_refused-kept x selected part).0

        chosen :
            (part < length t.partitions)
            × IsReady selected.balancer (length t.partitions)
            × OneMore x in_flight s.broker.balancer selected.balancer part
        chosen =
            tracks.selects s.broker.balancer name msg.key (length t.partitions) some_partition h.0.0

        done :
            IsReady (x.on_publish_complete checked.balancer part) (length t.partitions)
            × ((k : ℕ)
                → (in_flight (x.on_publish_complete checked.balancer part) k + one_if k part)
                    % mod64
                  ≡ in_flight checked.balancer k)
        done =
            tracks.completes checked.balancer part (length t.partitions) chosen.0
              (subst (λ b. IsReady b (length t.partitions)) (sym same) chosen.1)

        one_more :
            (k : ℕ)
            → in_flight checked.balancer k ≡ (n k + count k s.groups + one_if k part) % mod64
        one_more k = omega (arith, ap (λ b. in_flight b k) same, chosen.2 k, h.0.1 k)

        kept_topic : Holds x IsReady in_flight tracks name (length t.partitions) checked
        kept_topic = (
          h.0.2.0,
          ap (λ ts. lookup ts name) (is_refused-kept x selected part).1 ∙ h.0.2.1,
          h.0.2.2,
        )

    sort_messages-IsCounted :
        (msgs : List Message) (i : ℕ) (s : Sorted x) (n : ℕ → ℕ)
        → IsCounted name (length t.partitions) n s
        → IsCounted name (length t.partitions) n (sort_messages x now name t i msgs s)
    unfolding sort_messages
    sort_messages-IsCounted [] i s n h = h
    sort_messages-IsCounted (msg ∷ msgs) i s n h =
        sort_messages-IsCounted msgs (i + 1) (sort_message x now name t i msg s) n
          (sort_message-IsCounted i msg s n h)

  -- An order in which the groups are visited, each once.
  abbrev pub IsVisit : (Groups → Groups) → Type 0
  IsVisit visit =
      (gs : Groups)
      → ((i : ℕ) → count i (visit gs) ≡ count i gs)
        × ((n : ℕ) → AreBelow n gs → AreBelow n (visit gs))

  -- Let a balancer count the publishes in flight to each partition modulo 2 ^ 64, one more for a
  -- choice of the partition and one less for a completion, and be ready for the partitions of the
  -- topic, if there is such a topic, of which there is at least one. Let the groups be visited in some
  -- order, each once, and the gate let every one in. Then `PublishBatch` leaves the counter of every
  -- partition as it was, whatever the messages, the verdicts of the backpressure, the codec and the
  -- appends come to: the throttled messages are completed too.
  pub publish_batch-in_flight :
      (pool : ℕ → List ℕ) (clock : Clock) (now : ℕ) (visit : Groups → Groups) (acquired : ℕ → Bool)
      (b : Broker x) (name : List ℕ) (msgs : List Message)
      → IsVisit visit
      → ((i : ℕ) → acquired i ≡ true)
      → ((t : Topic wal (Float x))
          → lookup b.topics name ≡ some t
          → (0 < length t.partitions) × IsReady b.balancer (length t.partitions))
      → SameCounts x in_flight b.balancer
          (publish_batch x pool clock now visit acquired b name msgs).0.balancer
  unfolding publish_batch count
  publish_batch-in_flight pool clock now visit acquired b name msgs visits all ready =
      elim (Option-cases (lookup b.topics name)) [
        | inl e ↦ rw (publish_batch, e) (λ i. refl)
        | inr (t, e) ↦
            let start : Sorted x = record {
              broker = b;
              groups = [];
              results = replicate (length msgs) no_result;
            } in
            let sorted = sort_messages x now name t 0 msgs start in
            let n : ℕ → ℕ = in_flight b.balancer in
            let counted = sort_messages-IsCounted now name t (ready t e).0 msgs 0 start n (
              ((ready t e).1, λ i. omega (arith, tracks.is_word b.balancer i), (t, e, refl)),
              tt,
            ) in
            let visited = visits sorted.groups in
            let done =
              append_groups-Open x IsReady in_flight tracks pool clock name (visit sorted.groups)
                (length sorted.groups == 1) acquired sorted.broker sorted.results
                (length t.partitions) n all (visited.1 (length t.partitions) counted.1)
                (counted.0.0, λ i. omega (arith, counted.0.1 i, visited.0 i), counted.0.2) in
            rw (publish_batch, e) (λ i. omega (arith, done.1 i, tracks.is_word b.balancer i))
      ]
