-- ===== src/Partition/Calls.antt =====
-- Sequences of appends, plain and compressed, to one partition.
use nya_queue.Prelude.{
  ℕ, ◌+◌, ◌<◌, ◌≡◌, refl, sym, ap, ◌∙◌, subst, true, false, Option, none, some, List, [], ◌∷◌, ◌++◌,
  append-nil, append_assoc, arith, map, length, length-map, length-append, All,
}
use nya_queue.Prelude.Elems.{some-inj}
use nya_queue.Prelude.Words.{mod32, mod64}
use nya_queue.Message.{Message}
use nya_queue.Codec.{Codec, IsLossless}
use nya_queue.Wal.{Wal, Batch, ReadsBack}
use nya_queue.Partition.{Result, ok, err, Clock, Partition, stamp}
use nya_queue.Partition.Methods.{Appended, commit_batch, append_batch, append_batch_compressed}
use nya_queue.Partition.View.{Serves}
use nya_queue.Partition.Batches.{stored, IsPlain}
use nya_queue.Partition.History.{IsPackable, append_batch-Serves, append_batch_compressed-Serves}

-- A client's call, and the messages that a reader sees of it.
pub data Call : Type 0 where
  plain : (ℕ → List ℕ) → Clock → List Message → Call
  packed : Clock → List Message → Call

unfoldable pub contents : Call → List Message
contents (plain pool clock msgs) = map (stored false) (map (stamp clock.append_time) msgs)
contents (packed clock msgs) = map (stored true) (map (stamp clock.append_time) msgs)

unfoldable pub all_contents : List Call → List Message
all_contents [] = []
all_contents (c ∷ cs) = contents c ++ all_contents cs

-- What the caller answers for: words that are words, and messages that their record can hold.
unfoldable pub IsAllowed : Call → Type 0
IsAllowed (plain pool clock msgs) = (clock.append_time < mod64) × All IsPlain msgs
IsAllowed (packed clock msgs) =
    (clock.append_time < mod64) × (length msgs < mod32) × All IsPackable msgs

module _ (w : Wal) where
  unfoldable pub call : Codec → Partition w.Log → Call → Appended w.Log
  call c p (plain pool clock msgs) = append_batch w pool clock p msgs
  call c p (packed clock msgs) = append_batch_compressed w clock p msgs c

  -- The partition after calls that all succeed.
  unfoldable pub run : Codec → Partition w.Log → List Call → Option (Partition w.Log)
  run c p [] = some p
  run c p (x ∷ xs) =
      let out = call c p x in
      let rest = run c out.partition xs in elim out.result [ ok offsets ↦ rest | err e ↦ none ]

  commit_batch-batch_codec :
      (clock : Clock) (p : Partition w.Log) (records : Batch) (msgs : List Message)
      → (commit_batch w clock p records msgs).partition.batch_codec ≡ p.batch_codec
  unfolding commit_batch
  commit_batch-batch_codec clock p records msgs = ground arith

  call-batch_codec :
      (c : Codec) (p : Partition w.Log) (x : Call)
      → (call c p x).partition.batch_codec ≡ p.batch_codec
  unfolding call append_batch append_batch_compressed
  call-batch_codec c p (plain pool clock []) = refl
  call-batch_codec c p (plain pool clock (m ∷ ms)) =
      commit_batch-batch_codec clock p _ (map (stamp clock.append_time) (m ∷ ms))
  call-batch_codec c p (packed clock []) = refl
  call-batch_codec c p (packed clock (m ∷ ms)) =
      ground (arith, λ (r : Batch) (ms' : List Message). commit_batch-batch_codec clock p r ms')

  length-contents :
      (pool : ℕ → List ℕ) (clock : Clock) (msgs : List Message)
      → (length (contents (plain pool clock msgs)) ≡ length msgs)
        × (length (contents (packed clock msgs)) ≡ length msgs)
  unfolding contents
  length-contents pool clock msgs = (
    length-map (stored false) (map (stamp clock.append_time) msgs)
        ∙ length-map (stamp clock.append_time) msgs,
    length-map (stored true) (map (stamp clock.append_time) msgs)
        ∙ length-map (stamp clock.append_time) msgs,
  )

  call-Serves :
      (c : Codec) (p : Partition w.Log) (x : Call) (os : List ℕ) (first : ℕ) (view : List Message)
      → ReadsBack w
      → IsLossless c
      → p.batch_codec ≡ some c
      → first + (length view + length (contents x)) < mod64
      → IsAllowed x
      → Serves w p first view
      → (call c p x).result ≡ ok os
      → Serves w (call c p x).partition first (view ++ contents x)
  unfolding call contents IsAllowed
  call-Serves c p (plain pool clock msgs) os first view hw lossless codec room v s e =
      append_batch-Serves w pool clock p msgs os first view hw v.0
        (omega (arith, room, s.ends, (length-contents pool clock msgs).0)) v.1 s e
  call-Serves c p (packed clock msgs) os first view hw lossless codec room v s e =
      append_batch_compressed-Serves w clock p msgs c os first view hw lossless codec v.0 v.1
        (omega (arith, room, s.ends, (length-contents (λ i. []) clock msgs).1)) v.2 s e

  -- One step of a run that ends.
  run-suc :
      (c : Codec) (p q : Partition w.Log) (x : Call) (xs : List Call)
      → run c p (x ∷ xs) ≡ some q
      → (os : List ℕ) × ((call c p x).result ≡ ok os) × (run c (call c p x).partition xs ≡ some q)
  unfolding run
  run-suc c p q x xs e = run_case (call c p x).result refl
    where
      run_case :
          (r : Result (List ℕ))
          → (call c p x).result ≡ r
          → (os : List ℕ) × ((call c p x).result ≡ ok os)
            × (run c (call c p x).partition xs ≡ some q)
      run_case (ok os) h = (os, h, ground (arith, h, e))
      run_case (err er) h = absurd (ground (arith, h, e))

  -- Let the write-ahead log read back what it has written, and let the codec of the partition be
  -- lossless. After any calls of `AppendBatch` and `AppendBatchCompressed` that all succeed, a
  -- partition that held some messages from an offset on holds these and then the messages of the
  -- calls in their order: `ReadMessage` at each of the offsets returns its message with the append
  -- time of its call (and marked as decoded from a batch, if it was), and the next offset is the
  -- one behind the last. Conditions: offsets stay below 2 ^ 64; the messages and the append times
  -- can be written (a byte as the priority, 64-bit words as the times, a key shorter than 2 ^ 32); in
  -- a plain call no message has a priority of 0xBA or 0xFF; in a compressed one the number of
  -- messages and the encoded size of each are below 2 ^ 32.
  pub run-Serves :
      (c : Codec) (xs : List Call) (p q : Partition w.Log) (first : ℕ) (view : List Message)
      → ReadsBack w
      → IsLossless c
      → p.batch_codec ≡ some c
      → first + length (view ++ all_contents xs) < mod64
      → All IsAllowed xs
      → Serves w p first view
      → run c p xs ≡ some q
      → Serves w q first (view ++ all_contents xs)
  unfolding all_contents run
  run-Serves c [] p q first view hw lossless codec room v s e =
      subst (λ t. Serves w t first (view ++ [])) (some-inj e)
        (subst (Serves w p first) (sym (append-nil view)) s)
  run-Serves c (x ∷ xs) p q first view hw lossless codec room v s e =
      let (os, done, rest) = run-suc c p q x xs e in
      let regroup = append_assoc view (contents x) (all_contents xs) in
      subst (Serves w q first) regroup (
        run-Serves c xs (call c p x).partition q first (view ++ contents x) hw lossless
          (call-batch_codec c p x ∙ codec) (omega (arith, room, ap length regroup)) v.1
          (call-Serves c p x os first view hw lossless codec
            (omega (
              arith,
              room,
              length-append view (contents x ++ all_contents xs),
              length-append (contents x) (all_contents xs),
            ))
            v.0 s done)
          rest)
