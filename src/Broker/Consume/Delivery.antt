-- ===== src/Broker/Consume/Delivery.antt =====
-- What a consumer gets that calls `ConsumeBatch` again and again: brokers with the scheduler `FIFO`.
use nya_queue.Prelude.{
  ℕ, zero, suc, ◌+◌, ◌≤◌, ◌<◌, ◌≡◌, refl, sym, ap, ◌∙◌, subst, Bool-cases, Option-cases, inl, inr,
  Option, none, some, List, [], ◌∷◌, arith, set, get_elem?, length, ltb, ltb→lt, drop-all, take,
  drop,
}
use nya_queue.Prelude.Int.{pos}
use nya_queue.Prelude.Elems.{get_elem?-total}
use nya_queue.Prelude.Words.{mod64}
use nya_queue.Message.{Message}
use nya_queue.Codec.{Codec}
use nya_queue.Partition.{Partition}
use nya_queue.Partition.View.{Serves}
use nya_queue.Scheduler
use nya_queue.Scheduler.{next_fifo}
use nya_queue.Scheduler.Fifo.{next_fifo-end, drop-at}
use nya_queue.OffsetStore.{OffsetStore, lookup, insert}
use nya_queue.OffsetStore.Maps.{lookup-insert_same}
use nya_queue.Topic.{Topic, get_partition}
use nya_queue.Broker.{Parts, Error, no_messages, Result, ok, err, Broker, Float, put_partition}
use nya_queue.Broker.Consume.{
  decompress_message, record_consume, next_error, deliver, consume_from, Fetched, fetch,
}
use nya_queue.Broker.Consume.Reads.{
  IsFifo, get_partition-set, consume_from-known, consume_from-Serves,
}

-- A fetch that ended early has found no messages.
abbrev pub IsEnd : Option Error → Type 0
IsEnd none = Unit {0}
IsEnd (some e) = e ≡ no_messages

module _ (x : Parts) (name : List ℕ) (part : ℕ) (p : Partition x.wal.Log) (s : x.SchedulerState)
    (codec : Codec) where
  open x use {wal}

  -- The broker has the partition, the scheduler, the codec and an offset store.
  pub record Ready (b : Broker x) (store : OffsetStore x.badger) : Type 0 where
    pub topic : Topic wal (Float x)
    pub known : lookup b.topics name ≡ some topic
    pub at : get_partition wal (Float x) topic (pos part) ≡ some p
    pub sched : lookup b.schedulers name ≡ some s
    pub codec_kept : b.codec ≡ codec
    pub stored : b.offset_store ≡ some store

  -- A partition that is put back as it was.
  put-Ready :
      (b : Broker x) (store : OffsetStore x.badger) (r : Ready b store)
      → Ready
          (record (put_partition x b name r.topic part p) {
            schedulers = insert b.schedulers name s;
          })
          store
  unfolding put_partition
  put-Ready b store r = record {
    topic = _;
    known =
        lookup-insert_same b.topics name
          (record r.topic { partitions = set r.topic.partitions part p });
    at = get_partition-set x r.topic part p p r.at;
    sched = lookup-insert_same b.schedulers name s;
    codec_kept = r.codec_kept;
    stored = r.stored;
  }

  record_consume-Ready :
      (b : Broker x) (store : OffsetStore x.badger)
      → Ready b store
      → Ready (record_consume x b part) store
  unfolding record_consume
  record_consume-Ready b store r = record {
    topic = r.topic;
    known = r.known;
    at = r.at;
    sched = r.sched;
    codec_kept = r.codec_kept;
    stored = r.stored;
  }

  deliver-Ready :
      (b : Broker x) (store : OffsetStore x.badger) (r : Ready b store)
      (out : Scheduler.Result Message) (next : ℕ)
      → Ready (deliver x b name r.topic part (out, next, s, p)).1 store
  unfolding deliver
  deliver-Ready b store r (Scheduler.err e) next = put-Ready b store r
  deliver-Ready b store r (Scheduler.ok m) next =
      let kept = put-Ready b store r in
      elim (Option-cases (
        decompress_message x
          (record (put_partition x b name r.topic part p) {
            schedulers = insert b.schedulers name s;
          })
          m)) [
            | inl e ↦ rw (deliver, e) kept
            | inr (plain, e) ↦ rw (deliver, e) (record_consume-Ready _ store kept)
          ]

  consume_from-Ready :
      (b : Broker x) (store : OffsetStore x.badger) (offset : ℕ)
      → IsFifo x s
      → Ready b store
      → Ready (consume_from x b name part offset).1 store
  consume_from-Ready b store offset fifo r =
      subst (λ (o : Result (Message × ℕ) × Broker x). Ready o.1 store)
        (sym (
          consume_from-known x b name r.topic part offset p s r.known r.at r.sched
          ∙ ap (deliver x b name r.topic part) (fifo p offset)))
        (deliver-Ready b store r _ _)

  fetch-err :
      (b : Broker x) (offset left : ℕ) (e : Error)
      → (consume_from x b name part offset).0 ≡ err e
      → fetch x b name part offset (suc left) ≡ record {
        messages = [];
        offset = offset;
        stopped = some e;
        broker = (consume_from x b name part offset).1;
      }
  unfolding fetch
  fetch-err b offset left e h = rw (fetch, h) refl

  fetch-ok :
      (b : Broker x) (offset left : ℕ) (m : Message) (next : ℕ)
      → (consume_from x b name part offset).0 ≡ ok (m, next)
      → let rest = fetch x (consume_from x b name part offset).1 name part next left in
        fetch x b name part offset (suc left) ≡ record rest { messages = m ∷ rest.messages }
  unfolding fetch
  fetch-ok b offset left m next h = rw (fetch, h) refl

  -- The messages of a view as they are after their decompression.
  pub record Opens (view opened : List Message) : Type 0 where
    pub same_length : length opened ≡ length view
    pub opens :
        (k : ℕ) (m : Message)
        → get_elem? view k ≡ some m
        → (y : Message) × (get_elem? opened k ≡ some y)
          × ((b : Broker x) → b.codec ≡ codec → decompress_message x b m ≡ some y)

  -- What a fetch that starts at the `k`-th message of a partition has come to.
  abbrev pub Delivered : ℕ → List Message → OffsetStore x.badger → ℕ → ℕ → Fetched x → Type 0
  Delivered first opened store left k got =
      (got.messages ≡ take left (drop k opened))
      × (got.offset ≡ first + k + length got.messages)
      × Ready got.broker store
      × IsEnd got.stopped

  module _ (first : ℕ) (view opened : List Message) (fifo : IsFifo x s)
      (serves : Serves wal p first view) (positive : 0 < p.next_offset)
      (word : p.next_offset < mod64) (opens : Opens view opened) where
    consume_from-end :
        (b : Broker x) (store : OffsetStore x.badger) (k : ℕ)
        → Ready b store
        → k ≡ length view
        → (consume_from x b name part (first + k)).0 ≡ err no_messages
    unfolding deliver next_error
    consume_from-end b store k r e =
        let at_end : next_fifo wal p (first + k)
            ≡ (Scheduler.err Scheduler.no_messages, p.next_offset) =
          ap (next_fifo wal p) {x = first + k} {y = p.next_offset} (omega (arith, e, serves.ends))
          ∙ next_fifo-end wal p positive word in
        ap (λ o. o.0)
          (consume_from-known x b name r.topic part (first + k) p s r.known r.at r.sched)
        ∙ ap (λ r'. (deliver x b name r.topic part r').0) (fifo p (first + k))
        ∙ ap (λ r'. (deliver x b name r.topic part (r'.0, r'.1, s, p)).0) at_end

    pub fetch-Delivered :
        (left k : ℕ) (b : Broker x) (store : OffsetStore x.badger)
        → Ready b store
        → k ≤ length view
        → Delivered first opened store left k (fetch x b name part (first + k) left)
    unfolding fetch
    fetch-Delivered zero k b store r le = (refl, omega arith, r, tt)
    fetch-Delivered (suc left) k b store r le = elim (Bool-cases (ltb k (length view))) [
      | inl more ↦
          let (m, at) = get_elem?-total view k (ltb→lt _ _ more) in
          let (plain, place, open_m) = opens.opens k m at in
          let found =
            consume_from-Serves x b name r.topic part p s first k view m plain r.known r.at r.sched
              fifo serves word at (open_m b r.codec_kept) in
          let rest =
            subst
              (λ o.
                Delivered first opened store left (k + 1)
                  (fetch x (consume_from x b name part (first + k)).1 name part o left))
              {x = first + (k + 1)} {y = first + k + 1} (omega arith)
              (fetch-Delivered left (k + 1) (consume_from x b name part (first + k)).1 store
                (consume_from-Ready b store (first + k) fifo r) (ground (arith, more))) in
          subst (Delivered first opened store (suc left) k)
            (sym (fetch-ok b (first + k) left plain (first + k + 1) found))
            (
              ap (λ t. plain ∷ t)
                    (rest.0
                      ∙ ap (λ i. take left (drop i opened)) {x = k + 1} {y = suc k} (omega arith))
                  ∙ ap (take (suc left)) (sym (drop-at opened k plain place)),
              omega (arith, rest.1),
              rest.2,
              rest.3,
            )
      | inr behind ↦
          subst (Delivered first opened store (suc left) k)
            (sym (
              fetch-err b (first + k) left no_messages
                (consume_from-end b store k r (ground (arith, behind, le)))))
            (
              ap (take (suc left))
                  (sym (drop-all k opened (ground (arith, behind, opens.same_length)))),
              omega arith,
              consume_from-Ready b store (first + k) fifo r,
              refl,
            )
    ]
