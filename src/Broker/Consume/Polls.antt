-- ===== src/Broker/Consume/Polls.antt =====
-- A consumer that calls `ConsumeBatch` again and again: brokers with the scheduler `FIFO` and an
-- offset store.
use nya_queue.Prelude.{
  ℕ, zero, suc, ◌+◌, ◌*◌, ◌≤◌, ◌<◌, ◌≡◌, ◌⊎◌, refl, sym, ap, ap₂, ◌∙◌, subst, inl, inr, Option,
  none, some, List, [], ◌∷◌, ◌++◌, arith, length, take, drop, length-take, length-drop, take-all,
  drop-all,
}
use nya_queue.Prelude.Words.{mod64}
use nya_queue.EntryRing.{Time}
use nya_queue.Message.{Message}
use nya_queue.Codec.{Codec}
use nya_queue.Partition.{Partition}
use nya_queue.Partition.View.{Serves}
use nya_queue.OffsetStore
use nya_queue.OffsetStore.{OffsetStore}
use nya_queue.OffsetStore.Sessions.{load-commit}
use nya_queue.Broker.{Parts, Error, no_messages, Broker}
use nya_queue.Broker.Consume.{start_offset, commit, Fetched, fetch, Batch, consume_batch}
use nya_queue.Broker.Consume.Reads.{IsFifo}
use nya_queue.Broker.Consume.Delivery.{Ready, Opens, IsEnd, Delivered, fetch-Delivered}
use native.Mathlib.Nat.{suc-mul}

take-more :
    (n m : ℕ) (xs : List Message)
    → take n xs ++ take m (drop (length (take n xs)) xs) ≡ take (n + m) xs
take-more zero m xs = ap (λ i. take i xs) {x = m} {y = 0 + m} (omega arith)
take-more (suc n) m [] = take-all m [] (omega arith) ∙ sym (take-all (suc n + m) [] (omega arith))
take-more (suc n) m (x ∷ xs) =
    ap (λ t. x ∷ t) (take-more n m xs)
    ∙ ap (λ i. take i (x ∷ xs)) {x = suc (n + m)} {y = suc n + m} (omega arith)

drop-more : (k j : ℕ) (xs : List Message) → drop j (drop k xs) ≡ drop (k + j) xs
drop-more zero j xs = ap (λ i. drop i xs) {x = j} {y = 0 + j} (omega arith)
drop-more (suc k) j [] = drop-all j [] (omega arith) ∙ sym (drop-all (suc k + j) [] (omega arith))
drop-more (suc k) j (x ∷ xs) =
    drop-more k j xs ∙ ap (λ i. drop i (x ∷ xs)) {x = suc (k + j)} {y = suc k + j} (omega arith)

list-cases : (xs : List Message) → (xs ≡ []) ⊎ ((y : Message) × (ys : List Message) × (xs ≡ y ∷ ys))
list-cases [] = inl refl
list-cases (y ∷ ys) = inr (y, ys, refl)

end-error :
    (stopped : Option Error)
    → IsEnd stopped
    → elim stopped [ none ↦ some no_messages | some e ↦ some e ] ≡ some no_messages
end-error none h = refl
end-error (some e) h = ap some h

module _ (x : Parts) (name group : List ℕ) (part : ℕ) where
  open x use {wal}

  -- The messages that `n` calls of `ConsumeBatch` return, one after the other, with the readings of
  -- the clock.
  unfoldable pub polls : ℕ → (ℕ → Time) → ℕ → Broker x → List Message
  polls zero now most b = []
  polls (suc n) now most b =
      let out = consume_batch x b (now n) name group part most in
      out.messages ++ polls n now most out.broker

  start_offset-eq :
      (b c : Broker x)
      → b.offset_store ≡ c.offset_store
      → start_offset x b group name part ≡ start_offset x c group name part
  unfolding start_offset
  start_offset-eq b c e = rw (start_offset, e) refl

  abbrev fetched : Broker x → ℕ → Fetched x
  fetched b most = fetch x b name part (start_offset x b group name part) most

  consume_batch-none :
      (b : Broker x) (now : Time) (most : ℕ)
      → (fetched b most).messages ≡ []
      → consume_batch x b now name group part most ≡ record {
        messages = [];
        offset = 0;
        error = elim (fetched b most).stopped [ none ↦ some no_messages | some e ↦ some e ];
        broker = (fetched b most).broker;
      }
  unfolding consume_batch
  consume_batch-none b now most e = rw (consume_batch, e) refl

  consume_batch-some :
      (b : Broker x) (now : Time) (most : ℕ) (m : Message) (ms : List Message)
      → (fetched b most).messages ≡ m ∷ ms
      → let out = consume_batch x b now name group part most in
        (out.messages ≡ m ∷ ms)
        × (out.broker
            ≡ (commit x (fetched b most).broker now group name part (fetched b most).offset).1)
  unfolding consume_batch
  consume_batch-some b now most m ms e = rw (consume_batch, e) (refl, refl)

  module _ (p : Partition wal.Log) (s : x.SchedulerState) (codec : Codec) where
    abbrev IsReady : Broker x → OffsetStore x.badger → Type 0
    IsReady = Ready x name part p s codec

    commit-IsReady :
        (b : Broker x) (store : OffsetStore x.badger) (now : Time) (offset : ℕ)
        → IsReady b store
        → let b' = (commit x b now group name part offset).1 in
          ((store' : OffsetStore x.badger) × IsReady b' store')
          × (start_offset x b' group name part ≡ offset)
    unfolding commit start_offset
    commit-IsReady b store now offset r =
        let out = OffsetStore.commit x.badger store now group name part offset in
        rw (commit, r.stored)
          (
            (
              out.1,
              record {
                topic = r.topic;
                known = r.known;
                at = r.at;
                sched = r.sched;
                codec_kept = r.codec_kept;
                stored = refl;
              },
            ),
            rw (start_offset, (load-commit x.badger store now group name part offset).0) refl,
          )

    module _ (first : ℕ) (view opened : List Message) (fifo : IsFifo x s)
        (serves : Serves wal p first view) (positive : 0 < p.next_offset)
        (word : p.next_offset < mod64) (opens : Opens x name part p s codec view opened) where
      -- What a call returns and leaves that starts at the `k`-th message.
      abbrev Polled : ℕ → ℕ → Batch x → Type 0
      Polled most k out =
          (out.messages ≡ take most (drop k opened))
          × ((store : OffsetStore x.badger) × IsReady out.broker store)
          × (start_offset x out.broker group name part ≡ first + (k + length out.messages))
          × (out.messages ≡ [] → out.error ≡ some no_messages)

      poll-Polled :
          (b : Broker x) (store : OffsetStore x.badger) (now : Time) (most k : ℕ)
          → IsReady b store
          → start_offset x b group name part ≡ first + k
          → k ≤ length view
          → Polled most k (consume_batch x b now name group part most)
      poll-Polled b store now most k r start le =
          let got =
            subst
              (λ o.
                Delivered x name part p s codec first opened store most k
                  (fetch x b name part o most))
              (sym start)
              (fetch-Delivered x name part p s codec first view opened fifo serves positive word
                opens most k b store r le) in
          elim (list-cases (fetched b most).messages) [
            | inl e ↦ subst (Polled most k) (sym (consume_batch-none b now most e)) (
              sym e ∙ got.0,
              (store, got.2),
              start_offset-eq (fetched b most).broker b (got.2.stored ∙ sym r.stored)
                  ∙ start
                  ∙ omega arith,
              λ _. end-error (fetched b most).stopped got.3,
            )
            | inr (m, ms, e) ↦
                let done = consume_batch-some b now most m ms e in
                let kept =
                  commit-IsReady (fetched b most).broker store now (fetched b most).offset got.2 in
                (
                  done.0 ∙ sym e ∙ got.0,
                  subst (λ (c : Broker x). (store : OffsetStore x.badger) × IsReady c store)
                      (sym done.1) kept.0,
                  ap (λ (c : Broker x). start_offset x c group name part) done.1
                      ∙ kept.1
                      ∙ got.1
                      ∙ omega (arith, ap length e, ap length done.0),
                  λ none_left. absurd (ground (arith, done.0, none_left)),
                )
          ]

      length-taken : (n k : ℕ) → k ≤ length view → k + length (take n (drop k opened)) ≤ length view
      length-taken n k le =
          omega (arith, le, length-take n (drop k opened), length-drop k opened, opens.same_length)

      polls-take :
          (n : ℕ) (now : ℕ → Time) (most k : ℕ) (b : Broker x) (store : OffsetStore x.badger)
          → IsReady b store
          → start_offset x b group name part ≡ first + k
          → k ≤ length view
          → polls n now most b ≡ take (n * most) (drop k opened)
      unfolding polls
      polls-take zero now most k b store r start le =
          ap (λ i. take i (drop k opened)) {x = 0} {y = 0 * most} (omega arith)
      polls-take (suc n) now most k b store r start le =
          let polled = poll-Polled b store (now n) most k r start le in
          let out = consume_batch x b (now n) name group part most in
          let got = ap length polled.0 in
          let fits = length-taken most k le in
          ap₂ (λ (u v : List Message). u ++ v) polled.0
            (polls-take n now most (k + length out.messages) out.broker polled.1.0 polled.1.1
                polled.2 (omega (arith, got, fits))
              ∙ ap (take (n * most)) (
                  ap (λ i. drop (k + i) opened) got
                  ∙ sym (drop-more k (length (take most (drop k opened))) opened)))
          ∙ take-more most (n * most) (drop k opened)
          ∙ ap (λ i. take i (drop k opened)) {x = most + n * most} {y = suc n * most}
              (omega (arith, suc-mul n most))

      -- Let the scheduler of a topic be `FIFO`, and a partition of it hold some messages from an
      -- offset on, up to its next offset, which is positive and below 2^64, each of which the
      -- broker's codec opens. Let a consumer group's offset be that of the `k`-th. Then `n` calls
      -- of `ConsumeBatch`, with nothing else in between, return the next `n` times
      -- `maxMessages` of the opened messages in their order, each once, or all that are left: with
      -- enough calls every message is delivered, also where the writes to the database fail.
      pub polls-take_all :
          (n : ℕ) (now : ℕ → Time) (most k : ℕ) (b : Broker x) (store : OffsetStore x.badger)
          → IsReady b store
          → start_offset x b group name part ≡ first + k
          → k ≤ length view
          → (polls n now most b ≡ take (n * most) (drop k opened))
            × (length view ≤ k + n * most → polls n now most b ≡ drop k opened)
      polls-take_all n now most k b store r start le =
          let done = polls-take n now most k b store r start le in
          (
            done,
            λ enough.
                done
                ∙ take-all (n * most) (drop k opened)
                    (omega (arith, enough, length-drop k opened, opens.same_length)),
          )
