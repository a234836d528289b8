-- ===== src/Broker/Batch.antt =====
-- `PublishBatch`: the messages are put into groups by their partitions, and a group is appended as a
-- whole. The groups go to different partitions; `visit` is the order in which they are appended.
pub mod Completion
pub mod InFlight
use nya_queue.Prelude.{
  ℕ, ◌+◌, Bool, ◌&&◌, Option, none, some, List, [], ◌∷◌, ◌++◌, map, ltb, ◌==◌, not, if◌then◌else◌,
  length, get_or, set, replicate,
}
use nya_queue.Prelude.Int.{pos}
use nya_queue.Message.{Message}
use nya_queue.Codec.{Codec}
use nya_queue.Partition
use nya_queue.Partition.{Partition, Clock}
use nya_queue.Partition.Methods.{Appended, append_batch, append_batch_compressed}
use nya_queue.OffsetStore.{lookup}
use nya_queue.Config.{eq_ℤ}
use nya_queue.Metrics
use nya_queue.Topic.{Topic, num_partitions, get_partition}
use nya_queue.Broker.{
  Parts, Error, topic_not_found, throttled, message_too_large, compress_failed,
  partition_out_of_range, append_failed, not_acquired, Broker, Float, put_partition,
}
use nya_queue.Broker.Publish.{is_too_large, produced_at, compress_message, is_refused, complete}

pub record PublishResult : Type 0 where
  pub partition : ℕ
  pub offset : ℕ
  pub error : Option Error

abbrev pub no_result : PublishResult
no_result = record { partition = 0; offset = 0; error = none }

-- A message with its place in the batch.
abbrev pub Indexed : Type 0
Indexed = Message × ℕ

abbrev pub Groups : Type 0
Groups = List (ℕ × List Indexed)

-- `groups[partIdx] = append(groups[partIdx], …)`
unfoldable pub add_to_group : Groups → ℕ → Indexed → Groups
add_to_group [] part item = (part, item ∷ []) ∷ []
add_to_group ((j, items) ∷ rest) part item =
    if j == part then (j, items ++ (item ∷ [])) ∷ rest else (j, items) ∷ add_to_group rest part item

unfoldable pub set_error : List PublishResult → ℕ → Error → List PublishResult
set_error results i e =
    let r = get_or results i no_result in set results i (record r { error = some e })

unfoldable pub set_errors : List PublishResult → List Indexed → Error → List PublishResult
set_errors results [] e = results
set_errors results ((m, i) ∷ items) e = set_errors (set_error results i e) items e

unfoldable pub set_offsets : List PublishResult → List Indexed → List ℕ → List PublishResult
set_offsets results [] offsets = results
set_offsets results (item ∷ items) [] = results
set_offsets results ((m, i) ∷ items) (o ∷ offsets) =
    let r = get_or results i no_result in
    set_offsets (set results i (record r { offset = o })) items offsets

-- The loop that compresses the values: `none` is an error.
unfoldable pub compress_all : List Message → Codec → Option (List Message)
compress_all [] codec = some []
compress_all (m ∷ ms) codec =
    let rest = compress_all ms codec in
    elim (compress_message m codec) [
      | none ↦ none
      | some packed ↦ elim rest [ none ↦ none | some others ↦ some (packed ∷ others) ]
    ]

module _ (x : Parts) where
  open x use {wal, floats}

  -- What the loop over the messages has come to.
  pub record Sorted : Type 0 where
    pub broker : Broker x
    pub groups : Groups
    pub results : List PublishResult

  -- The body of the loop for message `i`.
  unfoldable pub sort_message : ℕ → List ℕ → Topic wal (Float x) → ℕ → Message → Sorted → Sorted
  sort_message now name t i m s =
      let b = s.broker in
      let timed = produced_at now m in
      let (part, bal) = x.select_partition b.balancer name m.key (num_partitions wal (Float x) t) in
      let selected : Broker x = record b { balancer = bal } in
      let (refused, checked) = is_refused x selected part in
      let r = get_or s.results i no_result in
      let placed = set s.results i (record r { partition = part }) in
      if is_too_large b.config m
      then record s { results = set_error s.results i message_too_large }
      else if refused
      then record {
        broker = complete x checked part;
        groups = s.groups;
        results = set_error placed i throttled;
      }
      else record {
        broker = checked;
        groups = add_to_group s.groups part (timed, i);
        results = placed;
      }

  unfoldable pub sort_messages :
      ℕ → List ℕ → Topic wal (Float x) → ℕ → List Message → Sorted → Sorted
  sort_messages now name t i [] s = s
  sort_messages now name t i (m ∷ ms) s =
      sort_messages now name t (i + 1) ms (sort_message now name t i m s)

  -- The messages of a group, appended in the way that the compression and their number say. `none`
  -- is the error of the codec.
  unfoldable pub append_group :
      (ℕ → List ℕ) → Clock → Broker x → Partition wal.Log → List Message → Option (Appended wal.Log)
  append_group pool clock b p msgs =
      let compressing = not (eq_ℤ b.config.compression_type (pos 0)) in
      if compressing && ltb 1 (length msgs)
      then some (append_batch_compressed wal clock p msgs b.codec)
      else if compressing
      then elim (compress_all msgs b.codec) [
        | none ↦ none
        | some packed ↦ some (append_batch wal pool clock p packed)
      ]
      else some (append_batch wal pool clock p msgs)

  unfoldable pub complete_all : Broker x → ℕ → List Indexed → Broker x
  complete_all b part [] = b
  complete_all b part (item ∷ items) = complete_all (complete x b part) part items

  unfoldable pub record_produce_batch : Broker x → ℕ → ℕ → Broker x
  record_produce_batch b part n =
      let mc = b.collector in
      record b { collector = record mc { counts = Metrics.record_produce_batch mc.counts part n } }

  -- What is done behind the append of a group, with an error or not.
  unfoldable pub after_group : Broker x → ℕ → List Indexed → Broker x
  unfolding complete_all record_produce_batch
  after_group b part batch = record_produce_batch (complete_all b part batch) part (length batch)

  -- `appendPartitionBatch`
  unfoldable pub append_partition_batch :
      (ℕ → List ℕ)
      → Clock
      → List ℕ
      → ℕ × List Indexed
      → Broker x × List PublishResult
      → Broker x × List PublishResult
  unfolding after_group
  append_partition_batch pool clock name (part, batch) (b, results) = elim (lookup b.topics name) [
    | none ↦ (b, set_errors results batch topic_not_found)
    | some t ↦ elim (get_partition wal (Float x) t (pos part)) [
      | none ↦ (
        b,
        set_errors results batch (partition_out_of_range part (num_partitions wal (Float x) t)),
      )
      | some p ↦
          let msgs = map (λ (item : Indexed). item.0) batch in
          elim (append_group pool clock b p msgs) [
            | none ↦ (after_group b part batch, set_errors results batch compress_failed)
            | some out ↦ (
              after_group (put_partition x b name t part out.partition) part batch,
              elim out.result [
                | Partition.ok offsets ↦ set_offsets results batch offsets
                | Partition.err e ↦ set_errors results batch (append_failed e)
              ],
            )
          ]
    ]
  ]

  -- `acquired part` says whether the gate lets the group of a partition in; it is not asked when
  -- there is one group only.
  unfoldable pub append_groups :
      (ℕ → List ℕ)
      → Clock
      → List ℕ
      → Bool
      → (ℕ → Bool)
      → Groups
      → Broker x × List PublishResult
      → Broker x × List PublishResult
  append_groups pool clock name is_only acquired [] out = out
  append_groups pool clock name is_only acquired ((part, batch) ∷ rest) (b, results) =
      append_groups pool clock name is_only acquired rest (
        if is_only
        then append_partition_batch pool clock name (part, batch) (b, results)
        else if acquired part
        then append_partition_batch pool clock name (part, batch) (b, results)
        else (b, set_errors results batch not_acquired))

  unfoldable pub publish_batch :
      (ℕ → List ℕ)
      → Clock
      → ℕ
      → (Groups → Groups)
      → (ℕ → Bool)
      → Broker x
      → List ℕ
      → List Message
      → Broker x × List PublishResult
  publish_batch pool clock now visit acquired b name msgs = elim (lookup b.topics name) [
    | none ↦ (
      b,
      replicate (length msgs) (record { partition = 0; offset = 0; error = some topic_not_found }),
    )
    | some t ↦
        let sorted =
          sort_messages now name t 0 msgs
            (record { broker = b; groups = []; results = replicate (length msgs) no_result }) in
        append_groups pool clock name (length sorted.groups == 1) acquired (visit sorted.groups)
          (sorted.broker, sorted.results)
  ]
