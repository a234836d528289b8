-- ===== src/Metrics/Counters.antt =====
-- The counters of a partition count what was recorded for its number.
use nya_queue.Prelude.{
  ℕ, zero, suc, ◌+◌, ◌-◌, ◌%◌, ◌^◌, ◌≤◌, ◌<◌, ◌≡◌, inl, inr, refl, sym, ap, ◌∙◌, subst, Bool-cases,
  List, [], ◌∷◌, ◌++◌, arith, length, ltb, ltb_false→le, ◌==◌, if◌then◌else◌, replicate, get_or,
  set, length-append, length-replicate, length-set, get_or-set_self, get_or-set_ne,
}
use nya_queue.Prelude.Words.{mod64, add64}
use nya_queue.Metrics.{
  Counts, no_counts, ensure_part_counters, add_at, record_produce, record_produce_batch,
  record_consume, depth_of,
}

pub data Event : Type 0 where
  produced : ℕ → Event
  produced_batch : ℕ → ℕ → Event
  consumed : ℕ → Event

unfoldable pub recorded : Counts → Event → Counts
recorded c (produced i) = record_produce c i
recorded c (produced_batch i n) = record_produce_batch c i n
recorded c (consumed i) = record_consume c i

unfoldable pub recorded_all : Counts → List Event → Counts
recorded_all c [] = c
recorded_all c (e ∷ es) = recorded_all (recorded c e) es

-- What an event adds to the messages produced to, and consumed from, a partition.
unfoldable pub made : ℕ → Event → ℕ
made k (produced i) = if i == k then 1 else 0
made k (produced_batch i n) = if i == k then n else 0
made k (consumed i) = 0

unfoldable pub taken : ℕ → Event → ℕ
taken k (consumed i) = if i == k then 1 else 0
taken k _ = 0

unfoldable pub total : (Event → ℕ) → List Event → ℕ
total f [] = 0
total f (e ∷ es) = f e + total f es

get_or-padding : (xs : List ℕ) (n k : ℕ) → get_or (xs ++ replicate n 0) k 0 ≡ get_or xs k 0
get_or-padding [] zero k = refl
get_or-padding [] (suc n) zero = refl
get_or-padding [] (suc n) (suc k) = get_or-padding [] n k
get_or-padding (x ∷ xs) n zero = refl
get_or-padding (x ∷ xs) n (suc k) = get_or-padding xs n k

-- One counter after an addition to one.
get_or-add_at :
    (xs : List ℕ) (i n k : ℕ)
    → i < length xs
    → get_or (add_at xs i n) k 0 ≡ (if i == k then add64 (get_or xs k 0) n else get_or xs k 0)
unfolding add_at
get_or-add_at xs i n k lt = elim (Bool-cases (i == k)) [
  | inl e ↦
      let same : i ≡ k = ground (arith, e) in
      rw e (
        subst (λ j. get_or (set xs i (add64 (get_or xs i 0) n)) j 0 ≡ add64 (get_or xs j 0) n) same
          (get_or-set_self xs i (add64 (get_or xs i 0) n) 0 lt))
  | inr ne ↦ rw ne (get_or-set_ne xs i k (add64 (get_or xs i 0) n) 0 (λ e. ground (arith, e, ne)))
]

-- There are as many counters of either kind, and they say what was made and taken.
record IsCounted (c : Counts) (m t : ℕ → ℕ) : Type 0 where
  even : length c.part_consumes ≡ length c.part_produces
  makes : (k : ℕ) → get_or c.part_produces k 0 ≡ m k % mod64
  takes : (k : ℕ) → get_or c.part_consumes k 0 ≡ t k % mod64

-- Growing the counters changes none.
ensure_part_counters-IsCounted :
    (c : Counts) (n : ℕ) (m t : ℕ → ℕ)
    → IsCounted c m t
    → IsCounted (ensure_part_counters c n) m t
      × (n ≤ length (ensure_part_counters c n).part_produces)
unfolding ensure_part_counters
ensure_part_counters-IsCounted c n m t h =
    let more = n - length c.part_produces in
    let zeros = length-replicate {A = ℕ} more 0 in
    (
      record {
        even = omega (
          arith,
          length-append c.part_produces (replicate more 0),
          length-append c.part_consumes (replicate more 0),
          h.even,
        );
        makes = λ k. get_or-padding c.part_produces more k ∙ h.makes k;
        takes = λ k. get_or-padding c.part_consumes more k ∙ h.takes k;
      },
      omega (arith, length-append c.part_produces (replicate more 0), zeros),
    )

recorded-IsCounted :
    (c : Counts) (e : Event) (m t : ℕ → ℕ)
    → IsCounted c m t
    → IsCounted (recorded c e) (λ k. m k + made k e) (λ k. t k + taken k e)
unfolding recorded record_produce record_produce_batch record_consume made taken add_at
recorded-IsCounted c (produced i) m t h =
    let (grown, room) = ensure_part_counters-IsCounted c (i + 1) m t h in
    let ps = (ensure_part_counters c (i + 1)).part_produces in
    record {
      even = grown.even ∙ sym (length-set ps i (add64 (get_or ps i 0) 1));
      makes = λ k. ground (arith, get_or-add_at ps i 1 k (omega (arith, room)), grown.makes k);
      takes = λ k. ground (arith, grown.takes k);
    }
recorded-IsCounted c (produced_batch i n) m t h =
    let (grown, room) = ensure_part_counters-IsCounted c (i + 1) m t h in
    let ps = (ensure_part_counters c (i + 1)).part_produces in
    record {
      even = grown.even ∙ sym (length-set ps i (add64 (get_or ps i 0) n));
      makes = λ k. ground (arith, get_or-add_at ps i n k (omega (arith, room)), grown.makes k);
      takes = λ k. ground (arith, grown.takes k);
    }
recorded-IsCounted c (consumed i) m t h =
    let (grown, room) = ensure_part_counters-IsCounted c (i + 1) m t h in
    let cs = (ensure_part_counters c (i + 1)).part_consumes in
    record {
      even = length-set cs i (add64 (get_or cs i 0) 1) ∙ grown.even;
      makes = λ k. ground (arith, grown.makes k);
      takes = λ k.
          ground (arith, get_or-add_at cs i 1 k (omega (arith, room, grown.even)), grown.takes k);
    }

IsCounted-ext :
    (c : Counts) (m t m' t' : ℕ → ℕ)
    → ((k : ℕ) → m k ≡ m' k)
    → ((k : ℕ) → t k ≡ t' k)
    → IsCounted c m t
    → IsCounted c m' t'
IsCounted-ext c m t m' t' same same' h = record {
  even = h.even;
  makes = λ k. h.makes k ∙ ap (λ n. n % mod64) (same k);
  takes = λ k. h.takes k ∙ ap (λ n. n % mod64) (same' k);
}

recorded_all-IsCounted :
    (es : List Event) (c : Counts) (m t : ℕ → ℕ)
    → IsCounted c m t
    → IsCounted (recorded_all c es) (λ k. m k + total (made k) es) (λ k. t k + total (taken k) es)
unfolding recorded_all total
recorded_all-IsCounted [] c m t h = IsCounted-ext c m t _ _ (λ k. omega arith) (λ k. omega arith) h
recorded_all-IsCounted (e ∷ es) c m t h =
    IsCounted-ext (recorded_all (recorded c e) es) _ _ _ _ (λ k. omega arith) (λ k. omega arith)
      (recorded_all-IsCounted es (recorded c e) _ _ (recorded-IsCounted c e m t h))

no_counts-IsCounted : IsCounted no_counts (λ k. 0) (λ k. 0)
no_counts-IsCounted = record { even = refl; makes = λ k. refl; takes = λ k. refl }

pub get_or-behind : (xs : List ℕ) (k : ℕ) → length xs ≤ k → get_or xs k 0 ≡ 0
get_or-behind [] k le = refl
get_or-behind (x ∷ xs) zero le = absurd (omega (arith, le))
get_or-behind (x ∷ xs) (suc k) le = get_or-behind xs k (omega (arith, le))

depth_of-eq :
    (c : Counts) (k p t : ℕ)
    → get_or c.part_produces k 0 ≡ p
    → get_or c.part_consumes k 0 ≡ t
    → p < 2 ^ 63
    → t < 2 ^ 63
    → depth_of c k ≡ p - t
unfolding depth_of
depth_of-eq c k p t makes takes few few' = elim (Bool-cases (ltb k (length c.part_produces))) [
  | inl known ↦ ground (arith, known, makes, takes)
  | inr unknown ↦
      ground (arith, unknown, makes, get_or-behind c.part_produces k (ltb_false→le _ _ unknown))
]

-- After any records of produced and consumed messages in new metrics, let the messages produced to
-- partitions of number `k`, and those consumed from them, be fewer than 2 ^ 63 each. Then the two
-- counters of `k` are these numbers, of all topics together, and the queue depth that a snapshot
-- gives for a partition of that number is what was produced less what was consumed, or 0.
pub recorded_all-counts :
    (es : List Event) (k : ℕ)
    → total (made k) es < 2 ^ 63
    → total (taken k) es < 2 ^ 63
    → let c = recorded_all no_counts es in
      (get_or c.part_produces k 0 ≡ total (made k) es)
      × (get_or c.part_consumes k 0 ≡ total (taken k) es)
      × (depth_of c k ≡ total (made k) es - total (taken k) es)
recorded_all-counts es k few few' =
    let c = recorded_all no_counts es in
    let counted = recorded_all-IsCounted es no_counts _ _ no_counts-IsCounted in
    let makes : get_or c.part_produces k 0 ≡ total (made k) es =
      omega (arith, counted.makes k, few) in
    let takes : get_or c.part_consumes k 0 ≡ total (taken k) es =
      omega (arith, counted.takes k, few') in
    (makes, takes, depth_of-eq c k _ _ makes takes few few')
