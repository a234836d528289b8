-- ===== src/Partition/Batches.antt =====
-- The batches of `AppendBatch` and `AppendBatchCompressed`: what is read after either.
use nya_queue.Prelude.{
  ℕ, zero, suc, ◌+◌, ◌≤◌, ◌≡◌, ◌≢◌, refl, sym, ap, ◌∙◌, Bool, false, some, List, [], ◌∷◌, map,
  get_elem?, get_or, length, length-map, All,
}
use nya_queue.Prelude.Elems.{All-get_elem?}
use nya_queue.Prelude.Words.{mod64}
use nya_queue.Message.{Message, marshal}
use nya_queue.Message.Encode.{encoding, header_bytes, marshal-encoding}
use nya_queue.Message.Decode.{IsMessage}
use nya_queue.Wal.{Wal}
use nya_queue.Partition.{wal_batch_magic, wal_redirect_magic, ok, Partition, plain_records}
use nya_queue.Partition.Records.{
  entry_at-plain_records, entry_at-plain_records_before, read_record-marshal,
}
use nya_queue.Partition.View.{Describes}

-- The message that a reader sees, and the messages that may be appended as they are.
unfoldable pub stored : Bool → Message → Message
stored in_batch m = record m { batch_decoded = in_batch }

pub record IsPlain (m : Message) : Type 0 where
  pub is_message : IsMessage m
  pub no_batch : m.header.priority ≢ wal_batch_magic
  pub no_redirect : m.header.priority ≢ wal_redirect_magic

pub head-marshal : (m : Message) → get_or (marshal m) 0 0 ≡ m.header.priority
unfolding encoding header_bytes
head-marshal m = ap (λ bs. get_or bs 0 0) (marshal-encoding m)

-- A message of a mapped list is the image of one at the same place.
pub map-place :
    {A B : Type 0}
    → (f : A → B) (xs : List A) (k : ℕ) (y : B) → get_elem? (map f xs) k ≡ some y
    → (x : A) × (get_elem? xs k ≡ some x) × (f x ≡ y)
map-place f [] k y e = cc
map-place f (x ∷ xs) zero y e = (x, refl, cc)
map-place f (x ∷ xs) (suc k) y e = map-place f xs k y e

module _ (w : Wal) where
  pub plain_records-Describes :
      (pool : ℕ → List ℕ) (q : Partition w.Log) (next : ℕ) (msgs : List Message)
      → next + length msgs ≤ mod64
      → All IsPlain msgs
      → Describes w (plain_records pool 0 next msgs) q next (length msgs) (map (stored false) msgs)
  unfolding stored
  plain_records-Describes pool q next msgs room v = record {
    amount = length-map (stored false) msgs;
    before = λ j lt. entry_at-plain_records_before msgs pool 0 next j room lt;
    describes = λ k m e.
        let (x, at, is) = map-place (stored false) msgs k m e in
        let plain = All-get_elem? IsPlain msgs k x v at in
        (
          marshal x,
          entry_at-plain_records msgs pool 0 next k x room at,
          λ redirect. absurd (plain.no_redirect (sym (head-marshal x) ∙ redirect)),
          read_record-marshal w q (next + k) x plain.is_message plain.no_batch plain.no_redirect
              ∙ ap ok is,
        );
  }
