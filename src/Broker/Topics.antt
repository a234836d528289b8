-- ===== src/Broker/Topics.antt =====
-- The topics of the broker, and its configuration.
pub mod Registry
pub mod Removal
pub mod Settings
use nya_queue.Prelude.{ℕ, Bool, Option, none, some, List, [], ◌∷◌, not, if◌then◌else◌, map}
use nya_queue.Prelude.Int.{pos}
use nya_queue.Codec.{new_codec}
use nya_queue.Partition
use nya_queue.Partition.{Partition}
use nya_queue.Partition.Methods.{set_batch_codec}
use nya_queue.OffsetStore
use nya_queue.OffsetStore.{Key, lookup, insert, remove}
use nya_queue.Config.{Config, SyncPolicy, TopicConfig, eq_ℤ, same_config, meets, config_rules}
use nya_queue.LoadPredictor
use nya_queue.Metrics
use nya_queue.Topic.{Topic, new_topic, close}
use nya_queue.Broker.{
  Parts, Result, ok, err, topic_already_exists, topic_not_found, topic_failed, close_failed,
  remove_dir_failed, invalid_config, Broker, Float, pool_size,
}

module _ (x : Parts) where
  open x use {wal, floats}

  -- What `CreateTopic` does with the codec of the snapshot, if it compresses.
  unfoldable pub with_codec : Broker x → Topic wal (Float x) → Topic wal (Float x)
  with_codec b t =
      if not (eq_ℤ b.config.compression_type (pos 0))
      then record t { partitions = map (λ p. set_batch_codec wal p b.codec) t.partitions }
      else t

  -- `opened` is the outcome of `wal.Open`, by the policy and the number of the partition.
  unfoldable pub create_topic :
      Broker x
      → (SyncPolicy → ℕ → Option wal.Log)
      → List ℕ
      → TopicConfig (Float x)
      → Result (Unit {0}) × Broker x
  create_topic b opened name cfg =
      elim (new_topic wal (Float x) (opened b.config.sync_policy) name cfg) [
        | Partition.err e ↦ (err (topic_failed e), b)
        | Partition.ok t ↦ elim (lookup b.topics name) [
          | some _ ↦ (err topic_already_exists, b)
          | none ↦ (
            ok tt,
            record b {
              topics = insert b.topics name (with_codec b t);
              schedulers = elim b.scheduler_factory [
                | none ↦ b.schedulers
                | some fn ↦ insert b.schedulers name (fn cfg)
              ];
            },
          )
        ]
      ]

  unfoldable pub stop_scheduler : Broker x → List ℕ → Broker x
  stop_scheduler b name = record b { schedulers = remove b.schedulers name }

  -- The loop over the numbers of the partitions.
  unfoldable pub forget_partitions : Broker x → List (Partition wal.Log) → Broker x
  forget_partitions b [] = b
  forget_partitions b (p ∷ ps) =
      forget_partitions
        (record b {
          predictor = LoadPredictor.remove_partition floats x.roots b.predictor p.id;
          collector =
              let mc = b.collector in
              record mc { counts = Metrics.remove_partition mc.counts p.id };
        })
        ps

  -- `removed` says whether the directory of the topic could be removed.
  unfoldable pub delete_topic : Broker x → Bool → List ℕ → Result (Unit {0}) × Broker x
  unfolding stop_scheduler forget_partitions
  delete_topic b removed name = elim (lookup b.topics name) [
    | none ↦ (err topic_not_found, b)
    | some t ↦
        let gone = stop_scheduler (record b { topics = remove b.topics name }) name in
        let forgotten = forget_partitions gone t.partitions in
        let last : Broker x = record forgotten {
          offset_store = elim b.offset_store [
            | none ↦ none
            | some s ↦ some (OffsetStore.delete_topic x.badger s name)
          ];
        } in
        if not (close wal (Float x) x.close_log t).0
        then (err close_failed, gone)
        else if not removed
        then (err remove_dir_failed, forgotten)
        else (ok tt, last)
  ]

  unfoldable pub get_topic : Broker x → List ℕ → Result (Topic wal (Float x))
  get_topic b name = elim (lookup b.topics name) [ none ↦ err topic_not_found | some t ↦ ok t ]

  -- In the order in which `Range` goes through the map.
  unfoldable pub list_topics :
      (List (Key × Topic wal (Float x)) → List (Key × Topic wal (Float x)))
      → Broker x
      → List (Topic wal (Float x))
  list_topics visit b = map (λ (e : Key × Topic wal (Float x)). e.1) (visit b.topics)

  unfoldable pub apply_config : Broker x → Config → Result (Unit {0}) × Broker x
  apply_config b cfg =
      let old = b.config in
      if not (meets cfg config_rules)
      then (err invalid_config, b)
      else if same_config old cfg
      then (ok tt, b)
      else (
        ok tt,
        record b {
          config = cfg;
          codec =
              if eq_ℤ cfg.compression_type old.compression_type
              then b.codec
              else new_codec x.compressors cfg.compression_type;
          io_slots =
              if eq_ℤ cfg.num_io_goroutines old.num_io_goroutines
              then b.io_slots
              else pool_size x cfg.num_io_goroutines;
        },
      )
