-- ===== src/Partition/Rebuild.antt =====
-- `Rebuild`: what the priority index holds after the records have been read again.
use nya_queue.Prelude.{
  ℕ, zero, suc, ◌+◌, ◌-◌, ◌%◌, ◌⊎◌, ◌<◌, ◌≡◌, ◌≢◌, refl, ap, ◌∙◌, Bool, Bool-cases, Option-cases,
  inl, inr, false, some, List, [], ◌∷◌, arith, if◌then◌else◌, length, length-append,
}
use nya_queue.Prelude.Int.{pos}
use nya_queue.Prelude.Words.{mod32, signed64}
use nya_queue.Bytes.{be_bytes}
use nya_queue.Bytes.BigEndian.{length-be_bytes}
use nya_queue.Message
use nya_queue.Message.{Message, MessageHeader, marshal, unmarshal_header}
use nya_queue.Message.Decode.{IsMessage, unmarshal_header-marshal}
use nya_queue.PriorityIndex.{PriorityIndex, add}
use nya_queue.Wal.{Wal}
use nya_queue.Partition.{ok, Partition, redirect_record}
use nya_queue.Partition.Methods.{rebuild_from, rebuild}

-- Adding the messages that are not committed, in the order of their offsets from `off` on.
unfoldable pub add_pending : (ℕ → Bool) → PriorityIndex → ℕ → List Message → PriorityIndex
add_pending is_committed pi off [] = pi
add_pending is_committed pi off (m ∷ ms) =
    let next =
      if is_committed off
      then pi
      else (add pi (pos m.header.priority) off (signed64 m.header.timestamp)).1 in
    add_pending is_committed next (off + 1) ms

pub header_cases :
    (r : Message.Result MessageHeader)
    → ((e : Message.Error) × (r ≡ Message.err e)) ⊎ ((h : MessageHeader) × (r ≡ Message.ok h))
header_cases (Message.err e) = inl (e, refl)
header_cases (Message.ok h) = inr (h, refl)

module _ (w : Wal) where
  -- The log holds messages, each in a record of its own, from an offset on.
  abbrev pub HoldsPlain : w.Log → ℕ → List Message → Type 0
  HoldsPlain log off [] = Unit {0}
  HoldsPlain log off (m ∷ ms) =
      (w.read log off ≡ some (marshal m)) × IsMessage m × HoldsPlain log (off + 1) ms

  rebuild_from-plain :
      (log : w.Log) (is_committed : ℕ → Bool) (pi : PriorityIndex) (off : ℕ) (ms : List Message)
      → HoldsPlain log off ms
      → rebuild_from w log is_committed pi off (length ms)
        ≡ (ok tt, add_pending is_committed pi off ms)
  unfolding rebuild_from add_pending
  rebuild_from-plain log is_committed pi off [] v = refl
  rebuild_from-plain log is_committed pi off (m ∷ ms) v = elim (Bool-cases (is_committed off)) [
    | inl e ↦ ground (arith, e, v.0, rebuild_from-plain log is_committed pi (off + 1) ms v.2)
    | inr e ↦ ground (
      arith,
      e,
      v.0,
      unmarshal_header-marshal m v.1,
      rebuild_from-plain log is_committed
          (add pi (pos m.header.priority) off (signed64 m.header.timestamp)).1 (off + 1) ms v.2,
    )
  ]

  -- Let a partition have a priority index, and let the log hold a message in a plain record at
  -- each offset from the given one up to the next offset, each with words as its fields. Then
  -- `Rebuild` succeeds, and the index is what comes of adding to it, in the order of the offsets,
  -- those messages that are not committed, each with its priority and timestamp.
  pub rebuild-plain :
      (p : Partition w.Log) (pi : PriorityIndex) (is_committed : ℕ → Bool) (start : ℕ)
      (ms : List Message)
      → p.priority_index ≡ some pi
      → p.next_offset ≡ start + length ms
      → HoldsPlain p.log start ms
      → rebuild w p start is_committed
        ≡ (ok tt, record p { priority_index = some (add_pending is_committed pi start ms) })
  unfolding rebuild
  rebuild-plain p pi is_committed start ms e amount v =
      ground (arith, e, amount, rebuild_from-plain p.log is_committed pi start ms v)

  redirect_too_short :
      (base i : ℕ)
      → unmarshal_header (redirect_record base i) ≡ Message.err (Message.header_too_short 13)
  unfolding unmarshal_header redirect_record
  redirect_too_short base i = ground (
    arith,
    length-append (be_bytes 8 base) (be_bytes 4 (i % mod32)),
    length-be_bytes 8 base,
    length-be_bytes 4 (i % mod32),
  )

  -- One round of the loop either gives up or goes on with some index.
  rebuild_from-suc :
      (log : w.Log) (is_committed : ℕ → Bool) (pi : PriorityIndex) (off n : ℕ)
      → (rebuild_from w log is_committed pi off (suc n)).0 ≡ ok tt
      → (pi' : PriorityIndex) × ((rebuild_from w log is_committed pi' (off + 1) n).0 ≡ ok tt)
  unfolding rebuild_from
  rebuild_from-suc log is_committed pi off n e = elim (Option-cases (w.read log off)) [
    | inl missing ↦ absurd (ground (arith, missing, e))
    | inr (bytes, at) ↦ elim (Bool-cases (is_committed off)) [
      | inl committed ↦ (pi, ground (arith, at, committed, e))
      | inr pending ↦ elim (header_cases (unmarshal_header bytes)) [
        | inl (bad, h) ↦ absurd (ground (arith, at, pending, h, e))
        | inr (h, good) ↦ (
          (add pi (pos h.priority) off (signed64 h.timestamp)).1,
          ground (arith, at, pending, good, e),
        )
      ]
    ]
  ]

  rebuild_from-redirect :
      (n : ℕ) (log : w.Log) (is_committed : ℕ → Bool) (pi : PriorityIndex) (off k base i : ℕ)
      → k < n
      → w.read log (off + k) ≡ some (redirect_record base i)
      → is_committed (off + k) ≡ false
      → (rebuild_from w log is_committed pi off n).0 ≢ ok tt
  unfolding rebuild_from
  rebuild_from-redirect zero log is_committed pi off k base i lt at pending e = absurd (omega arith)
  rebuild_from-redirect (suc n) log is_committed pi off zero base i lt at pending e = absurd (
      ground (
        arith,
        ap (w.read log) here,
        at,
        ap is_committed here,
        pending,
        redirect_too_short base i,
        e,
      ))
    where
      here : off + 0 ≡ off
      here = omega arith
  rebuild_from-redirect (suc n) log is_committed pi off (suc k) base i lt at pending e =
      let (pi', rest) = rebuild_from-suc log is_committed pi off n e in
      let later : off + 1 + k ≡ off + suc k = omega arith in
      rebuild_from-redirect n log is_committed pi' (off + 1) k base i (omega arith)
        (ap (w.read log) later ∙ at) (ap is_committed later ∙ pending) rest

  -- `Rebuild` does not read what `AppendBatchCompressed` writes: if, in a partition with a
  -- priority index, an offset from the start on and below the next one holds a redirect and is
  -- not committed, it returns an error.
  pub rebuild-redirect :
      (p : Partition w.Log) (pi : PriorityIndex) (is_committed : ℕ → Bool) (start k base i : ℕ)
      → p.priority_index ≡ some pi
      → start + k < p.next_offset
      → w.read p.log (start + k) ≡ some (redirect_record base i)
      → is_committed (start + k) ≡ false
      → (rebuild w p start is_committed).0 ≢ ok tt
  unfolding rebuild
  rebuild-redirect p pi is_committed start k base i e lt at pending wrong =
      rebuild_from-redirect (p.next_offset - start) p.log is_committed pi start k base i
        (omega arith) at pending (ground (arith, e, wrong))
