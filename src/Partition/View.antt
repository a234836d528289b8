-- ===== src/Partition/View.antt =====
-- What a partition promises: it is a list of messages, one at each offset.
use nya_queue.Prelude.{
  ℕ, zero, suc, ◌+◌, ◌-◌, ◌≤◌, ◌<◌, ◌≡◌, refl, sym, ap, ap₂, ◌∙◌, inl, inr, Bool-cases,
  Option-cases, ltb, subst, none, some, List, [], ◌∷◌, ◌++◌, arith, get_elem?, get_or, length,
  length-append,
}
use nya_queue.Prelude.Elems.{
  some-inj, get_elem?-append_left, get_elem?-append_right, get_elem?-total,
}
use nya_queue.Prelude.Words.{mod64}
use nya_queue.Bytes.{be_value, slice}
use nya_queue.Message.{Message}
use nya_queue.Wal.{Wal, Batch, entry_at, ReadsBack}
use nya_queue.Partition.{
  wal_redirect_magic, wal_read, ok, err, Clock, Partition, offsets_from, advance,
}
use nya_queue.Partition.Methods.{commit_batch, read_from_batch, read_message, read_record}

-- A redirect leads to a record that is not behind it.
abbrev pub PointsBack : ℕ → List ℕ → Type 0
PointsBack i bytes = get_or bytes 0 0 ≡ wal_redirect_magic → be_value (slice bytes 1 8) ≤ i

pub advance-eq : (next n : ℕ) → next + n < mod64 → advance next n ≡ next + n
unfolding advance
advance-eq next zero h = omega arith
advance-eq next (suc n) h =
    ap (λ o. advance o n) {y = next + 1} (omega arith)
    ∙ advance-eq (next + 1) n (omega arith)
    ∙ omega arith

module _ (w : Wal) where
  -- The messages that are read from offset `first` on, up to the next offset.
  pub record Serves (p : Partition w.Log) (first : ℕ) (view : List Message) : Type 0 where
    pub ends : p.next_offset ≡ first + length view
    pub reads :
        (k : ℕ) (m : Message) → get_elem? view k ≡ some m → read_message w p (first + k) ≡ ok m
    pub back :
        (i : ℕ) (bytes : List ℕ)
        → i < p.next_offset
        → w.read p.log i ≡ some bytes
        → PointsBack i bytes

  -- What a record comes to depends on nothing behind it.
  read_record-stable :
      (p q : Partition w.Log) (i : ℕ) (bytes : List ℕ)
      → PointsBack i bytes
      → ((j : ℕ) → j ≤ i → w.read q.log j ≡ w.read p.log j)
      → q.batch_codec ≡ p.batch_codec
      → read_record w q i bytes ≡ read_record w p i bytes
  unfolding read_record read_from_batch
  read_record-stable p q i [] back same codec = refl
  read_record-stable p q i (b ∷ bs) back same codec =
      ground (arith, codec, same (be_value (slice (b ∷ bs) 1 8)))

  -- Reading where the log has a record, and where it has none.
  pub read_message-some :
      (p : Partition w.Log) (i : ℕ) (bytes : List ℕ)
      → w.read p.log i ≡ some bytes
      → read_message w p i ≡ read_record w p i bytes
  unfolding read_message
  read_message-some p i bytes e = ground arith

  read_message-none :
      (p : Partition w.Log) (i : ℕ) → w.read p.log i ≡ none → read_message w p i ≡ err (wal_read i)
  unfolding read_message
  read_message-none p i e = ground arith

  pub read_message-stable :
      (p q : Partition w.Log) (i : ℕ)
      → ((bytes : List ℕ) → w.read p.log i ≡ some bytes → PointsBack i bytes)
      → ((j : ℕ) → j ≤ i → w.read q.log j ≡ w.read p.log j)
      → q.batch_codec ≡ p.batch_codec
      → read_message w q i ≡ read_message w p i
  read_message-stable p q i back same codec = elim (Option-cases (w.read p.log i)) [
    | inl e ↦ read_message-none q i (same i (omega arith) ∙ e) ∙ sym (read_message-none p i e)
    | inr (bytes, e) ↦
        read_message-some q i bytes (same i (omega arith) ∙ e)
        ∙ read_record-stable p q i bytes (back bytes e) same codec
        ∙ sym (read_message-some p i bytes e)
  ]

  -- A batch that was committed is in the log, over what was there.
  pub read-commit_batch :
      (clock : Clock) (p : Partition w.Log) (records : Batch) (msgs : List Message) (os : List ℕ)
      (i : ℕ)
      → ReadsBack w
      → (commit_batch w clock p records msgs).result ≡ ok os
      → let q = (commit_batch w clock p records msgs).partition in
        (w.read q.log i
          ≡ elim (entry_at records i) [ some bytes ↦ some bytes | none ↦ w.read p.log i ])
        × (os ≡ offsets_from p.next_offset (length msgs))
        × (q.batch_codec ≡ p.batch_codec)
        × (q.next_offset ≡ advance p.next_offset (length msgs))
  unfolding commit_batch
  read-commit_batch clock p records msgs os i hw e =
      ground (arith, hw p.log (w.write_batch p.log records).1 records i)

  -- What the records of a batch of messages have to be.
  pub record Describes (records : Batch) (q : Partition w.Log) (next n : ℕ) (stored : List Message)
      : Type 0 where
    pub amount : length stored ≡ n
    pub before : (j : ℕ) → j < next → entry_at records j ≡ none
    pub describes :
        (k : ℕ) (m : Message)
        → get_elem? stored k ≡ some m
        → (bytes : List ℕ) × (entry_at records (next + k) ≡ some bytes)
          × PointsBack (next + k) bytes
          × (read_record w q (next + k) bytes ≡ ok m)

  -- A batch that is committed goes behind the messages there were, if its records describe it.
  pub commit_batch-Serves :
      (clock : Clock) (p : Partition w.Log) (records : Batch) (msgs : List Message) (os : List ℕ)
      (first : ℕ) (view stored : List Message)
      → ReadsBack w
      → p.next_offset + length msgs < mod64
      → Serves p first view
      → Describes records
          (commit_batch w clock p records msgs).partition
          p.next_offset
          (length msgs)
          stored
      → (commit_batch w clock p records msgs).result ≡ ok os
      → Serves (commit_batch w clock p records msgs).partition first (view ++ stored)
  commit_batch-Serves clock p records msgs os first view stored hw room s d e = record {
    ends = omega (arith, next, s.ends, d.amount, length-append view stored);
    reads = reads;
    back = back;
  }
    where
      q : Partition w.Log
      q = (commit_batch w clock p records msgs).partition

      after :
          (i : ℕ)
          → (w.read q.log i
              ≡ elim (entry_at records i) [ some bytes ↦ some bytes | none ↦ w.read p.log i ])
            × (os ≡ offsets_from p.next_offset (length msgs))
            × (q.batch_codec ≡ p.batch_codec)
            × (q.next_offset ≡ advance p.next_offset (length msgs))
      after i = read-commit_batch clock p records msgs os i hw e

      next : q.next_offset ≡ p.next_offset + length msgs
      next = (after 0).3 ∙ advance-eq p.next_offset (length msgs) room

      same : (j : ℕ) → j < p.next_offset → w.read q.log j ≡ w.read p.log j
      same j lt = ground (arith, (after j).0, d.before j lt)

      fresh :
          (j : ℕ) (bytes : List ℕ) → entry_at records j ≡ some bytes → w.read q.log j ≡ some bytes
      fresh j bytes at = ground (arith, (after j).0, at)

      reads :
          (k : ℕ) (m : Message)
          → get_elem? (view ++ stored) k ≡ some m
          → read_message w q (first + k) ≡ ok m
      reads k m at = elim (Bool-cases (ltb k (length view))) [
        | inl old ↦
            read_message-stable p q (first + k)
              (λ bytes. s.back (first + k) bytes (ground (arith, old, s.ends)))
              (λ j le. same j (ground (arith, old, s.ends))) (after 0).2
            ∙ s.reads k m (sym (get_elem?-append_left view stored k (ground (arith, old))) ∙ at)
        | inr new ↦
            let new_at =
              sym (get_elem?-append_right view stored (k - length view))
              ∙ ap (get_elem? (view ++ stored)) {y = k} (ground (arith, new))
              ∙ at in
            let (bytes, here, pointer, means) = d.describes (k - length view) m new_at in
            ap (read_message w q) {y = p.next_offset + (k - length view)}
              (ground (arith, new, s.ends))
            ∙ read_message-some q _ bytes (fresh _ bytes here)
            ∙ means
      ]

      back :
          (i : ℕ) (bytes : List ℕ)
          → i < q.next_offset
          → w.read q.log i ≡ some bytes
          → PointsBack i bytes
      back i bytes lt at = elim (Bool-cases (ltb i p.next_offset)) [
        | inl old ↦ s.back i bytes (ground (arith, old)) (sym (same i (ground (arith, old))) ∙ at)
        | inr new ↦
            let (m, e') =
              get_elem?-total stored (i - p.next_offset) (ground (arith, new, d.amount, next)) in
            let (bytes', here, pointer, means) = d.describes (i - p.next_offset) m e' in
            let i' : p.next_offset + (i - p.next_offset) ≡ i = ground (arith, new) in
            subst (λ (t : ℕ × List ℕ). PointsBack t.0 t.1)
              (ap₂ (λ a b. (a, b)) i'
                (some-inj (sym (fresh _ bytes' here) ∙ ap (w.read q.log) i' ∙ at)))
              pointer
      ]
