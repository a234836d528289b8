-- ===== src/Partition/Packed.antt =====
-- The records of `AppendBatchCompressed`: what is read at each offset of a compressed batch.
use nya_queue.Prelude.{
  ℕ, zero, suc, ◌+◌, ◌<◌, ◌≡◌, refl, sym, ap, ap₂, ◌∙◌, true, none, some, List, [], ◌∷◌, arith, map,
  get_elem?, length, length-map, All,
}
use nya_queue.Prelude.Elems.{get_elem?-lt}
use nya_queue.Prelude.Words.{mod32, mod64, add64}
use nya_queue.Message.{Message, encoded_size}
use nya_queue.Message.Decode.{IsMessage}
use nya_queue.Codec.{Codec, IsLossless}
use nya_queue.Wal.{Wal, Batch, entry_at}
use nya_queue.Partition.{
  ok, Partition, batch_record, redirect_records, redirect_record, payload_of, read_from_batch_data,
  find_message,
}
use nya_queue.Partition.Methods.{read_record, read_from_batch}
use nya_queue.Partition.Records.{
  redirect_base, entry_at-redirect_records, entry_at-redirect_records_before,
  read_record-redirect_record, read_record-batch_record, entry_at_here, entry_at_later,
  read_from_batch_data-batch_record,
}
use nya_queue.Partition.Payload.{frames, payload_of-frames, find_message-frames}
use nya_queue.Partition.Batches.{stored, map-place}
use nya_queue.Partition.View.{PointsBack, Describes}

-- The records of a compressed batch.
unfoldable pub packed_records : ℕ → ℕ → List ℕ → Batch
packed_records base n compressed =
    (base, batch_record (suc n) compressed) ∷ redirect_records base 1 (add64 base 1) n

pub packed_leader :
    (base n : ℕ) (compressed : List ℕ)
    → entry_at (packed_records base n compressed) base ≡ some (batch_record (suc n) compressed)
unfolding packed_records
packed_leader base n compressed = entry_at_here base base _ _ refl

packed_records_before :
    (base n j : ℕ) (compressed : List ℕ)
    → base + suc n < mod64
    → j < base
    → entry_at (packed_records base n compressed) j ≡ none
unfolding packed_records
packed_records_before base n j compressed room lt =
    entry_at_later _ _ _ _ (omega arith)
    ∙ ap (λ o. entry_at (redirect_records base 1 o n) j) {y = base + 1} (omega arith)
    ∙ entry_at-redirect_records_before n base 1 (base + 1) j (omega arith) (omega arith)

packed_record :
    (base n k : ℕ) (compressed : List ℕ)
    → base + suc n < mod64
    → k < n
    → entry_at (packed_records base n compressed) (base + suc k)
      ≡ some (redirect_record base (suc k))
unfolding packed_records
packed_record base n k compressed room lt =
    entry_at_later _ _ _ _ (omega arith)
    ∙ ap₂ (λ o i. entry_at (redirect_records base 1 o n) i) {y = base + 1} (omega arith)
        (omega arith)
    ∙ entry_at-redirect_records n base 1 (base + 1) k (omega arith) lt
    ∙ ap (λ i. some (redirect_record base i)) (omega arith)

redirect_pointer : (base i k : ℕ) → base < mod64 → PointsBack (base + k) (redirect_record base i)
unfolding redirect_record
redirect_pointer base i k room e = omega (arith, redirect_base base i room)

-- What every message of a compressed batch is read as, at its own record.
packed_read :
    (c : Codec) (k : ℕ) (msgs : List Message) (compressed : List ℕ) (m : Message)
    → IsLossless c
    → c.encode (payload_of msgs) ≡ some compressed
    → length msgs < mod32
    → All (λ x. IsMessage x × (encoded_size x < mod32)) msgs
    → get_elem? msgs k ≡ some m
    → read_from_batch_data (some c) (batch_record (length msgs) compressed) k ≡ ok (stored true m)
unfolding stored
packed_read c k msgs compressed m lossless encoded small v e =
    read_from_batch_data-batch_record c (length msgs) k compressed (payload_of msgs) small
      (get_elem?-lt msgs k m e) (lossless _ _ encoded)
    ∙ ap (λ p. find_message p k 0 0 (k + 1)) (payload_of-frames msgs)
    ∙ ap (λ i. find_message (frames msgs) i 0 0 (k + 1)) {y = 0 + k} (omega arith)
    ∙ find_message-frames msgs k m [] 0 (k + 1) e v (omega arith)

module _ (w : Wal) where
  -- A compressed batch that stands in the log of `q`, whose codec encoded it.
  pub record IsPacked (c : Codec) (q : Partition w.Log) (base n : ℕ) (msgs : List Message)
      (compressed : List ℕ) : Type 0 where
    pub lossless : IsLossless c
    pub codec : q.batch_codec ≡ some c
    pub encoded : c.encode (payload_of msgs) ≡ some compressed
    pub amount : length msgs ≡ suc n
    pub count_word : length msgs < mod32
    pub room : base + length msgs < mod64
    pub messages : All (λ x. IsMessage x × (encoded_size x < mod32)) msgs
    pub leader : w.read q.log base ≡ some (batch_record (suc n) compressed)

  packed_decode :
      (c : Codec) (q : Partition w.Log) (base n : ℕ) (msgs : List Message) (compressed : List ℕ)
      (k : ℕ) (m : Message)
      → IsPacked c q base n msgs compressed
      → get_elem? msgs k ≡ some m
      → read_from_batch_data q.batch_codec (batch_record (suc n) compressed) k ≡ ok (stored true m)
  packed_decode c q base n msgs compressed k m v e =
      ap₂ (λ b j. read_from_batch_data b (batch_record j compressed) k) v.codec (sym v.amount)
      ∙ packed_read c k msgs compressed m v.lossless v.encoded v.count_word v.messages e

  packed_read_from_batch :
      (c : Codec) (q : Partition w.Log) (base n : ℕ) (msgs : List Message) (compressed : List ℕ)
      (k : ℕ) (m : Message)
      → IsPacked c q base n msgs compressed
      → get_elem? msgs k ≡ some m
      → read_from_batch w q base k ≡ ok (stored true m)
  unfolding read_from_batch
  packed_read_from_batch c q base n msgs compressed k m v e =
      ground (arith, v.leader, packed_decode c q base n msgs compressed k m v e)

  packed_describes :
      (c : Codec) (q : Partition w.Log) (base n : ℕ) (msgs : List Message) (compressed : List ℕ)
      (k : ℕ) (m : Message)
      → IsPacked c q base n msgs compressed
      → get_elem? msgs k ≡ some m
      → (bytes : List ℕ) × (entry_at (packed_records base n compressed) (base + k) ≡ some bytes)
        × PointsBack (base + k) bytes
        × (read_record w q (base + k) bytes ≡ ok (stored true m))
  unfolding packed_records batch_record
  packed_describes c q base n msgs compressed zero m v e = (
    batch_record (suc n) compressed,
    entry_at_here _ _ _ _ (omega arith),
    λ redirect. omega arith,
    read_record-batch_record w q (base + 0) (suc n) compressed
        ∙ packed_decode c q base n msgs compressed 0 m v e,
  )
  packed_describes c q base n msgs compressed (suc k) m v e = (
    redirect_record base (suc k),
    packed_record base n k compressed (omega (arith, v.amount, v.room))
        (omega (arith, v.amount, get_elem?-lt msgs (suc k) m e)),
    redirect_pointer base (suc k) (suc k) (omega (arith, v.room)),
    read_record-redirect_record w q (base + suc k) base (suc k) (omega (arith, v.room))
          (omega (arith, v.amount, v.count_word, get_elem?-lt msgs (suc k) m e))
        ∙ packed_read_from_batch c q base n msgs compressed (suc k) m v e,
  )

  pub packed_records-Describes :
      (c : Codec) (q : Partition w.Log) (base n : ℕ) (msgs : List Message) (compressed : List ℕ)
      → IsPacked c q base n msgs compressed
      → Describes w (packed_records base n compressed) q base (length msgs) (map (stored true) msgs)
  packed_records-Describes c q base n msgs compressed v = record {
    amount = length-map (stored true) msgs;
    before = λ j lt. packed_records_before base n j compressed (omega (arith, v.amount, v.room)) lt;
    describes = λ k m e.
        let (x, at, is) = map-place (stored true) msgs k m e in
        let (bytes, here, pointer, means) = packed_describes c q base n msgs compressed k x v at in
        (bytes, here, pointer, means ∙ ap ok is);
  }
