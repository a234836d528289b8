-- ===== src/Partition/Records.antt =====
-- The records of a partition's log: where a batch puts them, and what reading each comes to.
use nya_queue.Prelude.{
  ℕ, zero, suc, ◌+◌, ◌%◌, ◌≤◌, ◌<◌, ◌≡◌, ◌≢◌, refl, sym, ap, ap₂, ◌∙◌, false, Option, none, some,
  List, [], ◌∷◌, ◌++◌, arith, get_elem?, drop, length, length-append, drop-append, append-nil,
}
use mathlib.Core.Option
use nya_queue.Prelude.Words.{mod32, mod64}
use nya_queue.Bytes.{be_bytes, be_value, slice}
use nya_queue.Bytes.BigEndian.{length-be_bytes, slice-append, be_value-be_bytes}
use nya_queue.Message
use nya_queue.Message.{Message, marshal, marshal_pooled, unmarshal_message}
use nya_queue.Message.Encode.{encoding, header_bytes, marshal-encoding, marshal_pooled-eq-marshal}
use nya_queue.Message.Decode.{IsMessage, unmarshal_message-marshal}
use nya_queue.Codec.{Codec}
use nya_queue.Wal.{Wal, Batch, entry_at}
use nya_queue.Partition.{
  wal_batch_magic, wal_redirect_magic, ok, Partition, plain_records, offsets_from, batch_record,
  redirect_record, redirect_records, find_message, read_from_batch_data,
}
use nya_queue.Partition.Methods.{read_from_batch, read_record}

-- Without wrap-around the offsets are consecutive.
pub get_elem?-offsets_from :
    (next n k : ℕ) → next + n ≤ mod64 → k < n → get_elem? (offsets_from next n) k ≡ some (next + k)
unfolding offsets_from
get_elem?-offsets_from next zero k h lt = absurd (omega arith)
get_elem?-offsets_from next (suc n) zero h lt = ap some (omega arith)
get_elem?-offsets_from next (suc zero) (suc k) h lt = absurd (omega arith)
get_elem?-offsets_from next (suc (suc n)) (suc k) h lt =
    ap (λ o. get_elem? (offsets_from o (suc n)) k) (omega arith)
    ∙ get_elem?-offsets_from (next + 1) (suc n) k (omega arith) (omega arith)
    ∙ ap some (omega arith)

entry_at-nil : (i : ℕ) → entry_at [] i ≡ none
unfolding entry_at
entry_at-nil i = refl

pub entry_at_here :
    (i j : ℕ) (bytes : List ℕ) (b : Batch) → i ≡ j → entry_at ((j, bytes) ∷ b) i ≡ some bytes
unfolding entry_at
entry_at_here i j bytes b h = ground arith

pub entry_at_later :
    (i j : ℕ) (bytes : List ℕ) (b : Batch) → i ≢ j → entry_at ((j, bytes) ∷ b) i ≡ entry_at b i
unfolding entry_at
entry_at_later i j bytes b h = ground arith

-- The record of the `k`-th message of a plain batch.
pub entry_at-plain_records :
    (msgs : List Message) (pool : ℕ → List ℕ) (i next k : ℕ) (m : Message)
    → next + length msgs ≤ mod64
    → get_elem? msgs k ≡ some m
    → entry_at (plain_records pool i next msgs) (next + k) ≡ some (marshal m)
unfolding plain_records
entry_at-plain_records [] pool i next k m h e = cc
entry_at-plain_records (x ∷ msgs) pool i next zero m h e =
    entry_at_here _ _ _ _ (omega arith)
    ∙ ap some (marshal_pooled-eq-marshal (pool i) x)
    ∙ ap (λ (o : Option Message). Option.map marshal o) e
entry_at-plain_records (x ∷ []) pool i next (suc k) m h e = cc
entry_at-plain_records (x ∷ y ∷ msgs) pool i next (suc k) m h e =
    entry_at_later _ _ _ _ (omega arith)
    ∙ ap₂ (λ n o. entry_at (plain_records pool (i + 1) n (y ∷ msgs)) o) (omega arith) (omega arith)
    ∙ entry_at-plain_records (y ∷ msgs) pool (i + 1) (next + 1) k m (omega arith) e

pub entry_at-plain_records_before :
    (msgs : List Message) (pool : ℕ → List ℕ) (i next j : ℕ)
    → next + length msgs ≤ mod64
    → j < next
    → entry_at (plain_records pool i next msgs) j ≡ none
unfolding plain_records
entry_at-plain_records_before [] pool i next j h lt = entry_at-nil j
entry_at-plain_records_before (x ∷ []) pool i next j h lt =
    entry_at_later _ _ _ _ (omega arith) ∙ entry_at-nil j
entry_at-plain_records_before (x ∷ y ∷ msgs) pool i next j h lt =
    entry_at_later _ _ _ _ (omega arith)
    ∙ ap (λ n. entry_at (plain_records pool (i + 1) n (y ∷ msgs)) j) (omega arith)
    ∙ entry_at-plain_records_before (y ∷ msgs) pool (i + 1) (next + 1) j (omega arith) (omega arith)

-- The record of the `k`-th of the redirects.
pub entry_at-redirect_records :
    (n base i next k : ℕ)
    → next + n ≤ mod64
    → k < n
    → entry_at (redirect_records base i next n) (next + k) ≡ some (redirect_record base (i + k))
unfolding redirect_records
entry_at-redirect_records zero base i next k h lt = absurd (omega arith)
entry_at-redirect_records (suc n) base i next zero h lt =
    entry_at_here _ _ _ _ (omega arith) ∙ ap (λ j. some (redirect_record base j)) (omega arith)
entry_at-redirect_records (suc zero) base i next (suc k) h lt = absurd (omega arith)
entry_at-redirect_records (suc (suc n)) base i next (suc k) h lt =
    entry_at_later _ _ _ _ (omega arith)
    ∙ ap₂ (λ m o. entry_at (redirect_records base (i + 1) m (suc n)) o) (omega arith) (omega arith)
    ∙ entry_at-redirect_records (suc n) base (i + 1) (next + 1) k (omega arith) (omega arith)
    ∙ ap (λ j. some (redirect_record base j)) (omega arith)

pub entry_at-redirect_records_before :
    (n base i next j : ℕ)
    → next + n ≤ mod64
    → j < next
    → entry_at (redirect_records base i next n) j ≡ none
unfolding redirect_records
entry_at-redirect_records_before zero base i next j h lt = entry_at-nil j
entry_at-redirect_records_before (suc zero) base i next j h lt =
    entry_at_later _ _ _ _ (omega arith) ∙ entry_at-nil j
entry_at-redirect_records_before (suc (suc n)) base i next j h lt =
    entry_at_later _ _ _ _ (omega arith)
    ∙ ap (λ m. entry_at (redirect_records base (i + 1) m (suc n)) j) (omega arith)
    ∙ entry_at-redirect_records_before (suc n) base (i + 1) (next + 1) j (omega arith) (omega arith)

-- Decoding a batch record comes down to the search in its payload.
pub read_from_batch_data-batch_record :
    (c : Codec) (n index : ℕ) (compressed payload : List ℕ)
    → n < mod32
    → index < n
    → c.decode compressed ≡ some payload
    → read_from_batch_data (some c) (batch_record n compressed) index
      ≡ find_message payload index 0 0 (index + 1)
unfolding read_from_batch_data batch_record
read_from_batch_data-batch_record c n index compressed payload small lt e =
    ground (arith, e, length-append len compressed, length-be_bytes 4 (n % mod32), count, behind)
  where
    len : List ℕ
    len = be_bytes 4 (n % mod32)

    count : be_value (slice (wal_batch_magic ∷ (len ++ compressed)) 1 4) ≡ n
    count =
        ap be_value (
          slice-append (wal_batch_magic ∷ []) len compressed 1 4 refl
            (sym (length-be_bytes 4 (n % mod32))))
        ∙ be_value-be_bytes 4 (n % mod32) (omega arith)
        ∙ omega arith

    behind : drop 5 (wal_batch_magic ∷ (len ++ compressed)) ≡ compressed
    behind =
        ap (λ k. drop k (len ++ compressed)) (sym (length-be_bytes 4 (n % mod32)))
        ∙ drop-append len compressed

-- The base that a redirect names.
pub redirect_base :
    (base i : ℕ) → base < mod64 → be_value (slice (redirect_record base i) 1 8) ≡ base
unfolding redirect_record
redirect_base base i hb =
    ap be_value (
      slice-append (wal_redirect_magic ∷ []) (be_bytes 8 base) (be_bytes 4 (i % mod32)) 1 8 refl
        (sym (length-be_bytes 8 base)))
    ∙ be_value-be_bytes 8 base (omega arith)

module _ (w : Wal) (p : Partition w.Log) where
  -- A record of a message whose priority is no magic number is decoded as one.
  pub read_record-marshal :
      (offset : ℕ) (m : Message)
      → IsMessage m
      → m.header.priority ≢ wal_batch_magic
      → m.header.priority ≢ wal_redirect_magic
      → read_record w p offset (marshal m) ≡ ok (record m { batch_decoded = false })
  unfolding read_record encoding header_bytes
  read_record-marshal offset m v nb nr =
      ap (read_record w p offset) (marshal-encoding m) ∙ ground (arith, decoded)
    where
      decoded : unmarshal_message (encoding m) ≡ Message.ok (record m { batch_decoded = false })
      decoded = ap unmarshal_message (sym (marshal-encoding m)) ∙ unmarshal_message-marshal m v

  pub read_record-redirect_record :
      (offset base i : ℕ)
      → base < mod64
      → i < mod32
      → read_record w p offset (redirect_record base i) ≡ read_from_batch w p base i
  unfolding read_record redirect_record
  read_record-redirect_record offset base i hb hi =
      ground (arith, len, ap₂ (read_from_batch w p) (redirect_base base i hb) at_index)
    where
      bs : List ℕ
      bs = be_bytes 8 base

      is : List ℕ
      is = be_bytes 4 (i % mod32)

      len : length (bs ++ is) ≡ 12
      len =
          omega (arith, length-append bs is, length-be_bytes 8 base, length-be_bytes 4 (i % mod32))

      at_index : be_value (slice (wal_redirect_magic ∷ (bs ++ is)) 9 4) ≡ i
      at_index =
          ap (λ t. be_value (slice (wal_redirect_magic ∷ (bs ++ t)) 9 4)) (sym (append-nil is))
          ∙ ap be_value (
              slice-append (wal_redirect_magic ∷ bs) is [] 9 4
                (omega (arith, length-be_bytes 8 base)) (sym (length-be_bytes 4 (i % mod32))))
          ∙ be_value-be_bytes 4 (i % mod32) (omega arith)
          ∙ omega arith

  pub read_record-batch_record :
      (offset n : ℕ) (compressed : List ℕ)
      → read_record w p offset (batch_record n compressed)
        ≡ read_from_batch_data p.batch_codec (batch_record n compressed) 0
  unfolding read_record batch_record
  read_record-batch_record offset n compressed = ground arith
