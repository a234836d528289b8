-- ===== src/Broker/Consume/Reads.antt =====
-- A message that is published is consumed: brokers with the scheduler `FIFO`.
use nya_queue.Prelude.{
  ℕ, zero, suc, ◌+◌, ◌<◌, ◌≡◌, refl, sym, ap, ◌∙◌, subst, Bool-cases, Option-cases, inl, inr, false,
  some, List, [], ◌∷◌, ◌++◌, arith, set, get_elem?, length, ltb, length-append, length-set,
}
use nya_queue.Prelude.Int.{pos}
use nya_queue.Prelude.Elems.{get_elem?-lt}
use nya_queue.Prelude.Words.{mod64}
use nya_queue.Message.{Message}
use nya_queue.Codec.{IsLossless}
use nya_queue.Wal.{ReadsBack}
use nya_queue.Partition
use nya_queue.Partition.{Partition, Clock, stamp, offsets_from}
use nya_queue.Partition.Methods.{append, append_batch, commit_batch}
use nya_queue.Partition.View.{Serves}
use nya_queue.Partition.Batches.{stored, IsPlain}
use nya_queue.Partition.History.{append_batch-Serves}
use nya_queue.Scheduler
use nya_queue.Scheduler.{next_fifo}
use nya_queue.Scheduler.Fifo.{next_fifo-found}
use nya_queue.OffsetStore.{lookup, insert}
use nya_queue.OffsetStore.Maps.{lookup-insert_same}
use nya_queue.Topic.{Topic, get_partition}
use nya_queue.Broker.{Parts, ok, Broker, Float, put_partition}
use nya_queue.Broker.Publish.{compress_message, produced_at, publish}
use nya_queue.Broker.Publish.Success.{Success, publish-Success}
use nya_queue.Broker.Consume.{decompress_message, deliver, consume_from}

get_elem?-set_same :
    {A : Type 0}
    → (xs : List A) (i : ℕ) (y v : A) → get_elem? xs i ≡ some y
    → get_elem? (set xs i v) i ≡ some v
get_elem?-set_same [] i y v e = cc
get_elem?-set_same (z ∷ xs) zero y v e = refl
get_elem?-set_same (z ∷ xs) (suc i) y v e = get_elem?-set_same xs i y v e

get_elem?-last :
    {A : Type 0} → (xs : List A) (y : A) → get_elem? (xs ++ (y ∷ [])) (length xs) ≡ some y
get_elem?-last [] y = refl
get_elem?-last (x ∷ xs) y = get_elem?-last xs y

module _ (x : Parts) where
  open x use {wal}

  -- The scheduler is `FIFO`: it has no state.
  abbrev pub IsFifo : x.SchedulerState → Type 0
  IsFifo s =
      (p : Partition wal.Log) (offset : ℕ)
      → x.next s p offset ≡ ((next_fifo wal p offset).0, (next_fifo wal p offset).1, s, p)

  append-offset :
      (pool : ℕ → List ℕ) (clock : Clock) (p : Partition wal.Log) (m : Message) (o : ℕ)
      → (append wal pool clock p m).0 ≡ Partition.ok o
      → (o ≡ p.next_offset)
        × ((append_batch wal pool clock p (m ∷ [])).result ≡ Partition.ok (p.next_offset ∷ []))
        × ((append wal pool clock p m).1 ≡ (append_batch wal pool clock p (m ∷ [])).partition)
  unfolding append append_batch commit_batch offsets_from
  append-offset pool clock p m o e = ground (arith, e)

  -- A partition after an append holds one message more, and the offset is its place.
  pub append-Serves :
      (pool : ℕ → List ℕ) (clock : Clock) (p : Partition wal.Log) (m : Message) (o first : ℕ)
      (view : List Message)
      → ReadsBack wal
      → clock.append_time < mod64
      → p.next_offset + 1 < mod64
      → IsPlain m
      → Serves wal p first view
      → (append wal pool clock p m).0 ≡ Partition.ok o
      → (o ≡ first + length view)
        × Serves wal
            (append wal pool clock p m).1
            first
            (view ++ (stored false (stamp clock.append_time m) ∷ []))
  append-Serves pool clock p m o first view hw time room plain s e =
      let done = append-offset pool clock p m o e in
      (
        done.0 ∙ s.ends,
        subst (λ q. Serves wal q first (view ++ (stored false (stamp clock.append_time m) ∷ [])))
            (sym done.2)
            (append_batch-Serves wal pool clock p (m ∷ []) (p.next_offset ∷ []) first view hw time
              room (plain, tt) s done.1),
      )

  decompress-put :
      (b : Broker x) (name : List ℕ) (t : Topic wal (Float x)) (part : ℕ) (p : Partition wal.Log)
      (s : x.SchedulerState) (m : Message)
      → decompress_message x
          (record (put_partition x b name t part p) { schedulers = insert b.schedulers name s })
          m
        ≡ decompress_message x b m
  unfolding decompress_message put_partition
  decompress-put b name t part p s m = refl

  pub consume_from-known :
      (b : Broker x) (name : List ℕ) (t : Topic wal (Float x)) (part offset : ℕ)
      (p : Partition wal.Log) (s : x.SchedulerState)
      → lookup b.topics name ≡ some t
      → get_partition wal (Float x) t (pos part) ≡ some p
      → lookup b.schedulers name ≡ some s
      → consume_from x b name part offset ≡ deliver x b name t part (x.next s p offset)
  unfolding consume_from
  consume_from-known b name t part offset p s known at sched =
      rw (consume_from, known, at, sched) refl

  deliver-ok :
      (b : Broker x) (name : List ℕ) (t : Topic wal (Float x)) (part next : ℕ)
      (p : Partition wal.Log) (s : x.SchedulerState) (m plain : Message)
      → decompress_message x b m ≡ some plain
      → (deliver x b name t part (Scheduler.ok m, next, s, p)).0 ≡ ok (plain, next)
  unfolding deliver
  deliver-ok b name t part next p s m plain e =
      rw (deliver, decompress-put b name t part p s m ∙ e) refl

  -- Reading from a partition that holds some messages.
  pub consume_from-Serves :
      (b : Broker x) (name : List ℕ) (t : Topic wal (Float x)) (part : ℕ) (p : Partition wal.Log)
      (s : x.SchedulerState) (first k : ℕ) (view : List Message) (m plain : Message)
      → lookup b.topics name ≡ some t
      → get_partition wal (Float x) t (pos part) ≡ some p
      → lookup b.schedulers name ≡ some s
      → IsFifo s
      → Serves wal p first view
      → p.next_offset < mod64
      → get_elem? view k ≡ some m
      → decompress_message x b m ≡ some plain
      → (consume_from x b name part (first + k)).0 ≡ ok (plain, first + k + 1)
  consume_from-Serves b name t part p s first k view m plain known at sched fifo serves word e
        packed =
      let found =
        next_fifo-found wal p (first + k) m (ground (arith, serves.ends, get_elem?-lt view k m e))
          word (serves.reads k m e) in
      ap (λ o. o.0) (consume_from-known b name t part (first + k) p s known at sched)
      ∙ ap (λ r. (deliver x b name t part r).0) (fifo p (first + k))
      ∙ ap (λ r. (deliver x b name t part (r.0, r.1, s, p)).0) found
      ∙ deliver-ok b name t part (first + k + 1) p s m plain packed

  decompress-stored :
      (c : Broker x) (now at : ℕ) (m packed : Message)
      → IsLossless c.codec
      → compress_message m c.codec ≡ some packed
      → decompress_message x c (stored false (stamp at (produced_at now packed)))
        ≡ some (stored false (stamp at (produced_at now m)))
  unfolding decompress_message stored stamp produced_at compress_message
  decompress-stored c now at m packed lossless e = elim (Option-cases (c.codec.encode m.value)) [
    | inl n ↦ absurd (ground (arith, e, n))
    | inr (out, h) ↦ ground (arith, e, h, lossless m.value out h)
  ]

  pub get_partition-set :
      (t : Topic wal (Float x)) (part : ℕ) (p q : Partition wal.Log)
      → get_partition wal (Float x) t (pos part) ≡ some p
      → get_partition wal (Float x) (record t { partitions = set t.partitions part q }) (pos part)
        ≡ some q
  unfolding get_partition
  get_partition-set t part p q e = elim (Bool-cases (ltb part (length t.partitions))) [
    | inl lt ↦
        let at : get_elem? t.partitions part ≡ some p = ground (arith, lt, e) in
        ground
          (arith, lt, length-set t.partitions part q, get_elem?-set_same t.partitions part p q at)
    | inr no_more ↦ absurd (ground (arith, no_more, e))
  ]

  module _ (pool : ℕ → List ℕ) (clock : Clock) (now : ℕ) (b : Broker x) (name : List ℕ)
      (m : Message) (part offset : ℕ) where
    read_back :
        (sched : x.SchedulerState) (first : ℕ) (view : List Message)
        (s : Success x pool clock now b name m part offset
          (publish x pool clock now b name m).broker)
        → ReadsBack wal
        → IsLossless b.codec
        → clock.append_time < mod64
        → IsPlain (produced_at now s.packed)
        → lookup b.schedulers name ≡ some sched
        → IsFifo sched
        → s.old.next_offset + 1 < mod64
        → Serves wal s.old first view
        → (consume_from x (publish x pool clock now b name m).broker name part offset).0
          ≡ ok (stored false (stamp clock.append_time (produced_at now m)), offset + 1)
    read_back sched first view s hw lossless time plain known fifo room serves =
        let done =
          append-Serves pool clock s.old (produced_at now s.packed) offset first view hw time room
            plain serves s.appended in
        subst
          (λ o.
            (consume_from x after name part o).0
            ≡ ok (stored false (stamp clock.append_time (produced_at now m)), o + 1))
          (sym done.0)
          (consume_from-Serves after name _ part _ sched first (length view) _
            (stored false (stamp clock.append_time (produced_at now s.packed))) _
            (ap (λ ts. lookup ts name) s.topics ∙ lookup-insert_same b.topics name _)
            (get_partition-set s.topic part s.old _ s.in_range)
            (ap (λ ss. lookup ss name) s.schedulers ∙ known) fifo done.1
            (ground (
              arith,
              done.1.ends,
              length-append view
                  (stored false (stamp clock.append_time (produced_at now s.packed)) ∷ []),
              serves.ends,
              room,
            ))
            (get_elem?-last view _)
            (decompress-stored after now clock.append_time m s.packed
              (subst IsLossless (sym s.codec) lossless)
              (ap (compress_message m) s.codec ∙ s.compressed)))
      where
        after : Broker x
        after = (publish x pool clock now b name m).broker

    -- Let the log give back what was appended, let the codec be lossless, the clock of the append a
    -- word and the packed message one that can be written and whose priority is no mark of a
    -- batch. Let every partition of that number of the topic be a list of messages, with
    -- room for one more, and its scheduler be `FIFO`. Then, if `Publish` succeeds, a read
    -- at the partition and offset that it returns gives that message as it was before its
    -- compression, with the two times set, and the offset behind it.
    pub publish-consume_from :
        (sched : x.SchedulerState) (first : ℕ) (view : List Message)
        → ReadsBack wal
        → IsLossless b.codec
        → clock.append_time < mod64
        → ((packed : Message)
            → compress_message m b.codec ≡ some packed
            → IsPlain (produced_at now packed))
        → lookup b.schedulers name ≡ some sched
        → IsFifo sched
        → ((t : Topic wal (Float x)) (p : Partition wal.Log)
            → lookup b.topics name ≡ some t
            → get_partition wal (Float x) t (pos part) ≡ some p
            → (p.next_offset + 1 < mod64) × Serves wal p first view)
        → (publish x pool clock now b name m).result ≡ ok (part, offset)
        → (offset ≡ first + length view)
          × ((consume_from x (publish x pool clock now b name m).broker name part offset).0
              ≡ ok (stored false (stamp clock.append_time (produced_at now m)), offset + 1))
    publish-consume_from sched first view hw lossless time plain known fifo holds e =
        let s = publish-Success x pool clock now b name m part offset e in
        let held = holds s.topic s.old s.known s.in_range in
        (
          (append-Serves pool clock s.old (produced_at now s.packed) offset first view hw time
              held.0 (plain s.packed s.compressed) held.1 s.appended).0,
          read_back sched first view s hw lossless time (plain s.packed s.compressed) known fifo
              held.0 held.1,
        )
