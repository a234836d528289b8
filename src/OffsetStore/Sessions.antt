-- ===== src/OffsetStore/Sessions.antt =====
-- What is loaded after a commit, and what `CommitFloor` is.
use nya_queue.Prelude.{
  ℕ, ◌^◌, ◌-◌, subst, ◌≡◌, ◌≢◌, refl, sym, ap, ◌∙◌, Bool, true, false, some, List, [], ◌∷◌, ◌++◌,
  append_assoc, arith, if◌then◌else◌, All,
}
use nya_queue.Prelude.Int.{ℤ, ◌≤ℤ◌}
use nya_queue.Prelude.Words.{signed64}
use nya_queue.EntryRing.{Time}
use nya_queue.OffsetStore.{
  Key, Badger, OffsetStore, lookup, insert, bucket_key, decimal, has_prefix, commit, load,
  write_one, lower, floor_of, commit_floor,
}
use nya_queue.OffsetStore.Maps.{lookup-insert_same, lookup-insert_other}

-- A key is of any topic whose name continues into the partition, and of a group whose name begins
-- with it.
bucket_key-shared :
    (topic group : List ℕ) (p q : ℕ)
    → bucket_key (topic ++ (47 ∷ decimal p)) q group
      ≡ bucket_key topic p (decimal q ++ (47 ∷ group))
unfolding bucket_key
bucket_key-shared topic group p q =
    append_assoc topic (47 ∷ decimal p) (47 ∷ (decimal q ++ (47 ∷ group)))

-- The bound that the loop of `CommitFloor` keeps.
lower-least :
    (prefix : Key) (e : Key × ℕ) (acc : ℕ × Bool)
    → (signed64 (lower prefix e acc).0 ≤ℤ signed64 acc.0)
      × (has_prefix e.0 prefix ≡ true → signed64 (lower prefix e acc).0 ≤ℤ signed64 e.1)
unfolding lower
lower-least prefix (k, off) (least, found) = (ground arith, λ h. ground (arith, h))

floor_of-least :
    (prefix : Key) (m : List (Key × ℕ)) (acc : ℕ × Bool)
    → (signed64 (floor_of prefix m acc).0 ≤ℤ signed64 acc.0)
      × All
          (λ e. has_prefix e.0 prefix ≡ true → signed64 (floor_of prefix m acc).0 ≤ℤ signed64 e.1)
          m
unfolding floor_of
floor_of-least prefix [] acc = (omega arith, tt)
floor_of-least prefix (e ∷ m) acc =
    let (bound, rest) = floor_of-least prefix m (lower prefix e acc) in
    let (step, here) = lower-least prefix e acc in
    (omega (arith, bound, step), (λ h. omega (arith, bound, here h), rest))

-- Without a key found no key has the prefix.
floor_of-found :
    (prefix : Key) (m : List (Key × ℕ)) (acc : ℕ × Bool)
    → (floor_of prefix m acc).1 ≡ false
    → (acc.1 ≡ false) × All (λ e. has_prefix e.0 prefix ≡ false) m
unfolding floor_of lower
floor_of-found prefix [] acc h = (h, tt)
floor_of-found prefix (e ∷ m) acc h =
    let (before, rest) = floor_of-found prefix m (lower prefix e acc) h in
    (ground (arith, before), (ground (arith, before), rest))

-- What holds of the keys with a prefix holds of no key, if there is none.
All-none :
    (prefix : Key) (z : ℤ) (m : List (Key × ℕ))
    → All (λ e. has_prefix e.0 prefix ≡ false) m
    → All (λ e. has_prefix e.0 prefix ≡ true → z ≤ℤ signed64 e.1) m
All-none prefix z [] v = tt
All-none prefix z (e ∷ m) v = (λ h. absurd (ground (arith, h, v.0)), All-none prefix z m v.1)

module _ (b : Badger) where
  commit-cache :
      (s : OffsetStore b) (now : Time) (group topic : List ℕ) (partition offset : ℕ)
      → (commit b s now group topic partition offset).1.cache
        ≡ insert s.cache (bucket_key topic partition group) offset
  unfolding commit write_one
  commit-cache s now group topic partition offset = ground arith

  -- After a `Commit`, whether the write to the database succeeds or not, `Load` returns the offset
  -- for its group, topic and partition, and what it returned before for every other group, topic and
  -- partition that has another key.
  pub load-commit :
      (s : OffsetStore b) (now : Time) (group topic : List ℕ) (partition offset : ℕ)
      → let s' = (commit b s now group topic partition offset).1 in
        (load b s' group topic partition ≡ some offset)
        × ((group' topic' : List ℕ) (partition' : ℕ)
            → bucket_key topic partition group ≢ bucket_key topic' partition' group'
            → load b s' group' topic' partition' ≡ load b s group' topic' partition')
  unfolding load
  load-commit s now group topic partition offset = (
    ap (λ m. lookup m (bucket_key topic partition group))
          (commit-cache s now group topic partition offset)
        ∙ lookup-insert_same s.cache (bucket_key topic partition group) offset,
    λ group' topic' partition' ne.
        ap (λ m. lookup m (bucket_key topic' partition' group'))
          (commit-cache s now group topic partition offset)
        ∙ lookup-insert_other s.cache (bucket_key topic partition group) _ offset ne,
  )

  -- Names with a slash share keys. A commit for a topic whose name ends in a slash and a number is
  -- loaded as the offset of another topic, partition and group.
  pub load-commit_shared :
      (s : OffsetStore b) (now : Time) (group topic : List ℕ) (p q offset : ℕ)
      → load b
          (commit b s now group (topic ++ (47 ∷ decimal p)) q offset).1
          (decimal q ++ (47 ∷ group))
          topic
          p
        ≡ some offset
  unfolding load
  load-commit_shared s now group topic p q offset =
      ap (lookup (commit b s now group (topic ++ (47 ∷ decimal p)) q offset).1.cache)
        (sym (bucket_key-shared topic group p q))
      ∙ (load-commit s now group (topic ++ (47 ∷ decimal p)) q offset).0

  -- What `CommitFloor` returns for a topic and a partition is not above any offset that is cached
  -- under a key of theirs.
  pub commit_floor-least :
      (s : OffsetStore b) (topic : List ℕ) (partition : ℕ)
      → All
          (λ e.
            has_prefix e.0 (topic ++ (47 ∷ (decimal partition ++ (47 ∷ [])))) ≡ true
            → signed64 (commit_floor b s topic partition) ≤ℤ signed64 e.1)
          s.cache
  unfolding commit_floor
  commit_floor-least s topic partition = by_found (floor_of prefix s.cache start).1 refl
    where
      prefix : Key
      prefix = topic ++ (47 ∷ (decimal partition ++ (47 ∷ [])))

      start : ℕ × Bool
      start = (2 ^ 63 - 1, false)

      by_found :
          (found : Bool)
          → (floor_of prefix s.cache start).1 ≡ found
          → All
              (λ e.
                has_prefix e.0 prefix ≡ true
                → signed64 (
                    if (floor_of prefix s.cache start).1
                    then (floor_of prefix s.cache start).0
                    else 0)
                  ≤ℤ signed64 e.1)
              s.cache
      by_found true h =
          subst
            (λ f.
              All
                (λ e.
                  has_prefix e.0 prefix ≡ true
                  → signed64 (if f then (floor_of prefix s.cache start).0 else 0) ≤ℤ signed64 e.1)
                s.cache)
            (sym h) (floor_of-least prefix s.cache start).1
      by_found false h =
          All-none prefix
            (signed64
              (if (floor_of prefix s.cache start).1 then (floor_of prefix s.cache start).0 else 0))
            s.cache (floor_of-found prefix s.cache start h).1
