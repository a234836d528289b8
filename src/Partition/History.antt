-- ===== src/Partition/History.antt =====
-- Appending to a partition and reading it: the messages stand in the order of the calls, each under
-- the offset that its call returned.
use nya_queue.Prelude.{
  ℕ, ◌+◌, ◌<◌, ◌≡◌, refl, sym, ap, ◌∙◌, subst, Option-cases, inl, inr, true, false, none, some,
  List, [], ◌∷◌, ◌++◌, append-nil, arith, map, length, length-map, All,
}
use nya_queue.Prelude.Elems.{All-map}
use nya_queue.Prelude.Words.{mod32, mod64}
use nya_queue.Message.{Message, encoded_size}
use nya_queue.Message.Decode.{IsMessage}
use nya_queue.Codec.{Codec, IsLossless}
use nya_queue.Wal.{Wal, Batch, entry_at, ReadsBack}
use nya_queue.Partition.{
  batch_compress, ok, err, Clock, Partition, stamp, plain_records, offsets_from, advance,
  payload_of,
}
use nya_queue.Partition.Methods.{Appended, commit_batch, append_batch, append_batch_compressed}
use nya_queue.Partition.View.{Serves, commit_batch-Serves, read-commit_batch}
use nya_queue.Partition.Batches.{stored, IsPlain, plain_records-Describes}
use nya_queue.Partition.Packed.{packed_records, packed_leader, packed_records-Describes}

stamp-IsMessage : (t : ℕ) (m : Message) → t < mod64 → IsMessage m → IsMessage (stamp t m)
unfolding stamp
stamp-IsMessage t m h v = record {
  priority_byte = v.priority_byte;
  timestamp_word = v.timestamp_word;
  produce_time_word = v.produce_time_word;
  append_time_word = h;
  key_length = v.key_length;
}

stamp-IsPlain : (t : ℕ) (m : Message) → t < mod64 → IsPlain m → IsPlain (stamp t m)
unfolding stamp
stamp-IsPlain t m h v = record {
  is_message = stamp-IsMessage t m h v.is_message;
  no_batch = v.no_batch;
  no_redirect = v.no_redirect;
}

-- What may go into a compressed batch: any message whose encoding fits its length field.
abbrev pub IsPackable : Message → Type 0
IsPackable m = IsMessage m × (encoded_size m < mod32)

stamp-IsPackable : (t : ℕ) (m : Message) → t < mod64 → IsPackable m → IsPackable (stamp t m)
unfolding stamp encoded_size
stamp-IsPackable t m h v = (stamp-IsMessage t m h v.0, v.1)

module _ (w : Wal) where
  pub append_batch-Serves :
      (pool : ℕ → List ℕ) (clock : Clock) (p : Partition w.Log) (msgs : List Message) (os : List ℕ)
      (first : ℕ) (view : List Message)
      → ReadsBack w
      → clock.append_time < mod64
      → p.next_offset + length msgs < mod64
      → All IsPlain msgs
      → Serves w p first view
      → (append_batch w pool clock p msgs).result ≡ ok os
      → Serves w
          (append_batch w pool clock p msgs).partition
          first
          (view ++ map (stored false) (map (stamp clock.append_time) msgs))
  unfolding append_batch
  append_batch-Serves pool clock p [] os first view hw time room v s e =
      subst (Serves w p first) (sym (append-nil view)) s
  append_batch-Serves pool clock p (m ∷ ms) os first view hw time room v s e =
      commit_batch-Serves w clock p (plain_records pool 0 p.next_offset stamped) stamped os first
        view _ hw fits s
        (plain_records-Describes w pool _ p.next_offset stamped (omega (arith, fits)) (
          All-map IsPlain IsPlain (stamp clock.append_time) (m ∷ ms)
            (λ x. stamp-IsPlain clock.append_time x time) v))
        e
    where
      stamped : List Message
      stamped = map (stamp clock.append_time) (m ∷ ms)

      fits : p.next_offset + length stamped < mod64
      fits = omega (arith, length-map (stamp clock.append_time) (m ∷ ms))

  -- The commit of the records of a compressed batch.
  commit_packed-Serves :
      (clock : Clock) (p : Partition w.Log) (x : Message) (xs : List Message) (os : List ℕ)
      (c : Codec) (compressed : List ℕ) (first : ℕ) (view : List Message)
      → ReadsBack w
      → IsLossless c
      → p.batch_codec ≡ some c
      → c.encode (payload_of (x ∷ xs)) ≡ some compressed
      → length (x ∷ xs) < mod32
      → p.next_offset + length (x ∷ xs) < mod64
      → All IsPackable (x ∷ xs)
      → Serves w p first view
      → let records = packed_records p.next_offset (length xs) compressed in
        let out = commit_batch w clock p records (x ∷ xs) in
        out.result ≡ ok os → Serves w out.partition first (view ++ map (stored true) (x ∷ xs))
  commit_packed-Serves clock p x xs os c compressed first view hw lossless codec encoded count room
        v s e =
      commit_batch-Serves w clock p records (x ∷ xs) os first view _ hw room s
        (packed_records-Describes w c q p.next_offset (length xs) (x ∷ xs) compressed (record {
          lossless = lossless;
          codec = after.2 ∙ codec;
          encoded = encoded;
          amount = refl;
          count_word = count;
          room = room;
          messages = v;
          leader = ground (arith, after.0, packed_leader p.next_offset (length xs) compressed);
        }))
        e
    where
      records : Batch
      records = packed_records p.next_offset (length xs) compressed

      q : Partition w.Log
      q = (commit_batch w clock p records (x ∷ xs)).partition

      after :
          (w.read q.log p.next_offset ≡ elim (entry_at records p.next_offset) [
            | some bytes ↦ some bytes
            | none ↦ w.read p.log p.next_offset
          ])
          × (os ≡ offsets_from p.next_offset (length (x ∷ xs)))
          × (q.batch_codec ≡ p.batch_codec)
          × (q.next_offset ≡ advance p.next_offset (length (x ∷ xs)))
      after = read-commit_batch w clock p records (x ∷ xs) os p.next_offset hw e

  -- The two outcomes of the codec.
  pub append_batch_compressed-some :
      (clock : Clock) (p : Partition w.Log) (m : Message) (ms : List Message) (c : Codec)
      (compressed : List ℕ)
      → c.encode (payload_of (map (stamp clock.append_time) (m ∷ ms))) ≡ some compressed
      → append_batch_compressed w clock p (m ∷ ms) c
        ≡ commit_batch w clock p
            (packed_records p.next_offset (length (map (stamp clock.append_time) ms)) compressed)
            (map (stamp clock.append_time) (m ∷ ms))
  unfolding append_batch_compressed packed_records
  append_batch_compressed-some clock p m ms c compressed e =
      ground (arith, e, length-map (stamp clock.append_time) ms)

  pub append_batch_compressed-none :
      (clock : Clock) (p : Partition w.Log) (m : Message) (ms : List Message) (c : Codec)
      → c.encode (payload_of (map (stamp clock.append_time) (m ∷ ms))) ≡ none
      → append_batch_compressed w clock p (m ∷ ms) c ≡ record {
        result = err batch_compress;
        messages = map (stamp clock.append_time) (m ∷ ms);
        partition = p;
      }
  unfolding append_batch_compressed
  append_batch_compressed-none clock p m ms c e = ground (arith, e)

  pub append_batch_compressed-Serves :
      (clock : Clock) (p : Partition w.Log) (msgs : List Message) (c : Codec) (os : List ℕ)
      (first : ℕ) (view : List Message)
      → ReadsBack w
      → IsLossless c
      → p.batch_codec ≡ some c
      → clock.append_time < mod64
      → length msgs < mod32
      → p.next_offset + length msgs < mod64
      → All IsPackable msgs
      → Serves w p first view
      → (append_batch_compressed w clock p msgs c).result ≡ ok os
      → Serves w
          (append_batch_compressed w clock p msgs c).partition
          first
          (view ++ map (stored true) (map (stamp clock.append_time) msgs))
  unfolding append_batch_compressed
  append_batch_compressed-Serves clock p [] c os first view hw lossless codec time count room v s
        e =
      subst (Serves w p first) (sym (append-nil view)) s
  append_batch_compressed-Serves clock p (m ∷ ms) c os first view hw lossless codec time count room
        v s e =
      elim (Option-cases (c.encode (payload_of stamped))) [
        | inl failed ↦ absurd (
            ground (
              arith,
              e,
              ap (λ out. out.result) (append_batch_compressed-none clock p m ms c failed),
            ))
        | inr (compressed, encoded) ↦
            let same = append_batch_compressed-some clock p m ms c compressed encoded in
            subst
              (λ (out : Appended w.Log).
                Serves w out.partition first (view ++ map (stored true) stamped))
              (sym same)
              (commit_packed-Serves clock p _ _ os c compressed first view hw lossless codec encoded
                (omega (arith, amount, count)) (omega (arith, amount, room))
                (All-map IsPackable IsPackable (stamp clock.append_time) (m ∷ ms)
                  (λ x. stamp-IsPackable clock.append_time x time) v)
                s (ap (λ out. out.result) (sym same) ∙ e))
      ]
    where
      stamped : List Message
      stamped = map (stamp clock.append_time) (m ∷ ms)

      amount : length stamped ≡ length (m ∷ ms)
      amount = length-map (stamp clock.append_time) (m ∷ ms)
