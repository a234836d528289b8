-- ===== src/OffsetStore.antt =====
-- pkg/broker/offset_store.go: the offsets that consumer groups have committed. Strings are lists of
-- bytes, an offset is an int64 by its bit pattern, and a map is a list of keys with their values.
-- github.com/dgraph-io/badger is a parameter.
pub mod Maps
pub mod Sessions
pub mod Keys
mod Tests
use nya_queue.Prelude.{
  ℕ, zero, suc, ◌+◌, ◌*◌, ◌-◌, ◌/◌, ◌%◌, ◌^◌, Bool, true, false, ◌&&◌, Option, none, some, List, [],
  ◌∷◌, ◌++◌, map, ltb, ◌==◌, if◌then◌else◌,
}
use nya_queue.Prelude.Int.{ℤ, pos, ltb_ℤ, ◌-ℤ◌}
use nya_queue.Prelude.Words.{signed64}
use nya_queue.Bytes.{be_bytes}
use nya_queue.EntryRing.{Time}

abbrev pub Key : Type 0
Key = List ℕ

unfoldable pub same_key : Key → Key → Bool
same_key [] [] = true
same_key [] (y ∷ ys) = false
same_key (x ∷ xs) [] = false
same_key (x ∷ xs) (y ∷ ys) = x == y && same_key xs ys

-- `strings.HasPrefix(key, prefix)`
unfoldable pub has_prefix : Key → Key → Bool
has_prefix key [] = true
has_prefix [] (y ∷ ys) = false
has_prefix (x ∷ xs) (y ∷ ys) = x == y && has_prefix xs ys

-- `Load`, `Store` and `Delete` of a map.
unfoldable pub lookup {ℓ} : {A : Type ℓ} → List (Key × A) → Key → Option A
lookup [] k = none
lookup ((j, v) ∷ m) k = if same_key j k then some v else lookup m k

unfoldable pub insert {ℓ} : {A : Type ℓ} → List (Key × A) → Key → A → List (Key × A)
insert [] k v = (k, v) ∷ []
insert ((j, u) ∷ m) k v = if same_key j k then (j, v) ∷ m else (j, u) ∷ insert m k v

unfoldable pub remove {ℓ} : {A : Type ℓ} → List (Key × A) → Key → List (Key × A)
remove [] k = []
remove ((j, u) ∷ m) k = if same_key j k then remove m k else (j, u) ∷ remove m k

unfoldable pub remove_all {ℓ} : {A : Type ℓ} → List (Key × A) → List Key → List (Key × A)
remove_all m [] = m
remove_all m (k ∷ ks) = remove_all (remove m k) ks

-- The decimal digits of a number, with as many rounds as it has digits at most.
unfoldable pub digits : ℕ → ℕ → List ℕ
digits zero n = []
digits (suc fuel) n =
    let front = digits fuel (n / 10) in
    if ltb n 10 then (48 + n) ∷ [] else front ++ ((48 + n % 10) ∷ [])

abbrev pub decimal : ℕ → List ℕ
decimal n = digits (n + 1) n

-- `fmt.Sprintf("%s/%d/%s", topic, partition, group)`
unfoldable pub bucket_key : List ℕ → ℕ → List ℕ → Key
bucket_key topic partition group = topic ++ (47 ∷ (decimal partition ++ (47 ∷ group)))

-- "off/"
abbrev pub badger_key : Key → Key
badger_key key = 111 ∷ 102 ∷ 102 ∷ 47 ∷ key

-- The loop of `CommitFloor`: `min_offset` and whether a key was found.
unfoldable pub lower : Key → (Key × ℕ) → ℕ × Bool → ℕ × Bool
lower prefix (k, off) (least, found) =
    if has_prefix k prefix
    then (if ltb_ℤ (signed64 off) (signed64 least) then off else least, true)
    else (least, found)

unfoldable pub floor_of : Key → List (Key × ℕ) → ℕ × Bool → ℕ × Bool
floor_of prefix [] acc = acc
floor_of prefix (e ∷ m) acc = floor_of prefix m (lower prefix e acc)

unfoldable pub keys_with : Key → List (Key × ℕ) → List Key
keys_with prefix [] = []
keys_with prefix ((k, off) ∷ m) =
    if has_prefix k prefix then k ∷ keys_with prefix m else keys_with prefix m

unfoldable pub expired_keys : Time → List (Key × Time) → List Key
expired_keys cutoff [] = []
expired_keys cutoff ((k, t) ∷ m) =
    if ltb_ℤ t cutoff then k ∷ expired_keys cutoff m else expired_keys cutoff m

-- A write of one key, and the removal of some, with their success.
pub record Badger : Type 1 where
  pub Db : Type 0
  pub put : Db → Key → List ℕ → Bool × Db
  pub delete : Db → List Key → Bool × Db

module _ (b : Badger) where
  open b use {Db}

  pub record OffsetStore : Type 0 where
    pub db : Db
    pub cache : List (Key × ℕ)
    pub last_commit : List (Key × Time)
    pub dump_interval : ℤ

  unfoldable pub write_one : OffsetStore → Key → ℕ → Bool × OffsetStore
  write_one s key offset =
      let (done, db) = b.put s.db (badger_key key) (be_bytes 8 offset) in
      (done, record s { db = db })

  -- The result is false for an error.
  unfoldable pub commit : OffsetStore → Time → List ℕ → List ℕ → ℕ → ℕ → Bool × OffsetStore
  unfolding write_one
  commit s now group topic partition offset =
      let key = bucket_key topic partition group in
      let cached : OffsetStore = record s {
        cache = insert s.cache key offset;
        last_commit = insert s.last_commit key now;
      } in
      if ltb_ℤ (pos 0) s.dump_interval then (true, cached) else write_one cached key offset

  -- `none` is an error.
  unfoldable pub load : OffsetStore → List ℕ → List ℕ → ℕ → Option ℕ
  load s group topic partition = lookup s.cache (bucket_key topic partition group)

  unfoldable pub commit_floor : OffsetStore → List ℕ → ℕ → ℕ
  commit_floor s topic partition =
      let (least, found) =
        floor_of (topic ++ (47 ∷ (decimal partition ++ (47 ∷ [])))) s.cache (2 ^ 63 - 1, false) in
      if found then least else 0

  -- A failure of the database is only logged.
  unfoldable pub delete_topic : OffsetStore → List ℕ → OffsetStore
  delete_topic s topic =
      let keys = keys_with (topic ++ (47 ∷ [])) s.cache in
      let (done, db) = b.delete s.db (map badger_key keys) in
      record s { db = db; cache = remove_all s.cache keys }

  unfoldable pub expire_sessions : OffsetStore → Time → ℤ → OffsetStore
  expire_sessions s now timeout =
      let expired = expired_keys (now -ℤ timeout) s.last_commit in
      record s {
        cache = remove_all s.cache expired;
        last_commit = remove_all s.last_commit expired;
      }
