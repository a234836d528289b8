-- ===== src/Scheduler/Strict.antt =====
-- `StrictPriority` delivers what is pending by priority, and in the order of arrival within one.
use nya_queue.Prelude.{
  ℕ, zero, suc, ◌<◌, ◌≡◌, refl, sym, ap, ◌∙◌, Option, none, some, List, [], ◌∷◌, arith, map, length,
  All, subst,
}
use nya_queue.Message.{Message}
use nya_queue.EntryRing.{PendingEntry}
use nya_queue.PriorityIndex.{PriorityIndex, pop_highest}
use nya_queue.PriorityIndex.Invariant.{IsValid}
use nya_queue.PriorityIndex.Delivery.{pending, PopsFirst, pop_highest-PopsFirst}
use nya_queue.Wal.{Wal}
use nya_queue.Partition
use nya_queue.Partition.{Partition}
use nya_queue.Partition.Methods.{read_message, read_record, read_from_batch}
use nya_queue.Scheduler.{ok, err, no_messages, next_strict}

module _ (w : Wal) where
  -- The messages of `n` calls of `Next`, up to the first error, each with its offset.
  unfoldable pub consume_strict : ℕ → Partition w.Log → List (Message × ℕ)
  consume_strict zero p = []
  consume_strict (suc n) p =
      let (out, (offset, left)) = next_strict w p in
      let rest = consume_strict n left in elim out [ ok m ↦ (m, offset) ∷ rest | err e ↦ [] ]

  -- Each entry leads to the message that a function gives for its offset.
  abbrev pub Leads : Partition w.Log → (ℕ → Message) → List PendingEntry → Type 0
  Leads p msg = All (λ e. read_message w p e.wal_offset ≡ Partition.ok (msg e.wal_offset))

  -- Reading takes no notice of the index.
  read_message-index :
      (p : Partition w.Log) (pi : PriorityIndex) (offset : ℕ)
      → read_message w (record p { priority_index = some pi }) offset ≡ read_message w p offset
  unfolding read_message read_record read_from_batch
  read_message-index p pi offset = refl

  Leads-index :
      (p : Partition w.Log) (pi : PriorityIndex) (msg : ℕ → Message) (es : List PendingEntry)
      → Leads p msg es
      → Leads (record p { priority_index = some pi }) msg es
  Leads-index p pi msg [] v = tt
  Leads-index p pi msg (e ∷ es) v =
      (read_message-index p pi e.wal_offset ∙ v.0, Leads-index p pi msg es v.1)

  -- The two outcomes of `Next`.
  next_strict-none :
      (p : Partition w.Log) (pi pi' : PriorityIndex)
      → p.priority_index ≡ some pi
      → pop_highest pi ≡ (none, pi')
      → (next_strict w p).0 ≡ err no_messages
  unfolding next_strict
  next_strict-none p pi pi' at e = ground (arith, at, e)

  next_strict-some :
      (p : Partition w.Log) (pi pi' : PriorityIndex) (x : PendingEntry) (m : Message)
      → p.priority_index ≡ some pi
      → pop_highest pi ≡ (some x, pi')
      → read_message w (record p { priority_index = some pi' }) x.wal_offset ≡ Partition.ok m
      → next_strict w p ≡ (ok m, (x.wal_offset, record p { priority_index = some pi' }))
  unfolding next_strict
  next_strict-some p pi pi' x m at e read = ground (arith, at, e, read)

  -- Let a partition have an index that satisfies its invariant, and let each pending offset be
  -- readable. Then a consumer that calls `Next` of `StrictPriority` often enough gets the message of
  -- each pending entry once, with its offset: those of a higher priority first, and those of one
  -- priority in the order in which they were added.
  pub consume_strict-pending :
      (n limit : ℕ) (p : Partition w.Log) (pi : PriorityIndex) (msg : ℕ → Message)
      → p.priority_index ≡ some pi
      → IsValid limit pi
      → Leads p msg (pending pi)
      → length (pending pi) < n
      → consume_strict n p ≡ map (λ e. (msg e.wal_offset, e.wal_offset)) (pending pi)
  unfolding consume_strict
  consume_strict-pending zero limit p pi msg at v leads lt = absurd (omega arith)
  consume_strict-pending (suc n) limit p pi msg at v leads lt =
      step (pop_highest pi)
        (λ pi' v' leads' lt'.
          consume_strict-pending n limit (record p { priority_index = some pi' }) pi' msg refl v'
            leads' lt')
        refl (pop_highest-PopsFirst limit pi v)
    where
      step :
          (out : Option PendingEntry × PriorityIndex)
          → ((pi' : PriorityIndex)
              → IsValid limit pi'
              → Leads (record p { priority_index = some pi' }) msg (pending pi')
              → length (pending pi') < n
              → consume_strict n (record p { priority_index = some pi' })
                ≡ map (λ e. (msg e.wal_offset, e.wal_offset)) (pending pi'))
          → pop_highest pi ≡ out
          → PopsFirst limit pi out
          → consume_strict (suc n) p ≡ map (λ e. (msg e.wal_offset, e.wal_offset)) (pending pi)
      step (none, pi') again e (same, empty) =
          ground (arith, next_strict-none p pi pi' at e)
          ∙ ap (map (λ e. (msg e.wal_offset, e.wal_offset))) {x = []} (sym empty)
      step (some x, pi') again e (valid, first) =
          let here = subst (Leads p msg) first leads in
          let next =
            next_strict-some p pi pi' x (msg x.wal_offset) at e
              (read_message-index p pi' x.wal_offset ∙ here.0) in
          ground (
            arith,
            next,
            again pi' valid (Leads-index p pi' msg (pending pi') here.1)
                (omega (arith, lt, ap length first)),
          )
          ∙ ap (map (λ e. (msg e.wal_offset, e.wal_offset))) {x = x ∷ pending pi'} (sym first)
