-- ===== src/Broker/Tests.antt =====
-- The theorems on topics, settings and publishes at a small broker.
use nya_queue.Prelude.{
  ℕ, ◌≡◌, ◌≢◌, ◌<◌, refl, subst, true, none, some, length, List, [], ◌∷◌, arith, get_or,
}
use nya_queue.Prelude.Int.{pos}
use nya_queue.Prelude.Elems.{some-inj}
use nya_queue.Message.{Message}
use nya_queue.Wal.ListLog.{list_wal}
use nya_queue.OffsetStore.{lookup, same_key}
use nya_queue.Config.{default_config}
use nya_queue.Topic.{num_partitions, Topic, all_closed, close}
use nya_queue.Broker.{Parts, Broker, topic_not_found, err}
use nya_queue.Broker.Topics.{create_topic, stop_scheduler, delete_topic, get_topic, apply_config}
use nya_queue.Broker.Topics.Registry.{Creation, create_topic-Creation}
use nya_queue.Broker.Topics.Removal.{outcome, delete_topic-get_topic, delete_topic-clears_shared}
use nya_queue.Broker.Topics.Settings.{Applied, new_broker-IsConsistent, apply_config-Applied}
use nya_queue.Broker.Publish.{publish}
use nya_queue.Broker.Publish.Refusals.{SameCounts, Outcome, publish-Outcome}
use nya_queue.Broker.Batch.{publish_batch}
use nya_queue.Broker.Batch.InFlight.{publish_batch-in_flight}
use nya_queue.Broker.PowerOfTwo.{with_p2c, HasCounters, in_flight, with_p2c-Tracks}
use nya_queue.Broker.Sample.{
  parts, orders, partition, topic_config, topic, message, clock, fresh, running, opened,
}

create_topic-Creation_example :
    Creation parts running
      (create_topic parts running opened (120 ∷ []) topic_config).1
      (120 ∷ [])
      topic_config
      (create_topic parts running opened (120 ∷ []) topic_config).0
create_topic-Creation_example = create_topic-Creation parts running opened (120 ∷ []) topic_config

delete_topic-get_topic_example :
    let (out, b') = delete_topic parts running true orders in
    (get_topic parts b' orders ≡ err topic_not_found)
    × ((other : List ℕ) → orders ≢ other → get_topic parts b' other ≡ get_topic parts running other)
    × (lookup running.topics orders ≡ none → (out ≡ err topic_not_found) × (b' ≡ running))
    × ((t : Topic list_wal ℕ)
        → lookup running.topics orders ≡ some t
        → (out ≡ outcome parts true t) × (lookup b'.schedulers orders ≡ none))
delete_topic-get_topic_example = delete_topic-get_topic parts running true orders

delete_topic-clears_shared_example :
    let c = (delete_topic parts running true orders).1.collector.counts in
    (get_or c.part_produces 1 0 ≡ 0) × (get_or c.part_consumes 1 0 ≡ 0)
unfolding lookup same_key delete_topic stop_scheduler close all_closed
delete_topic-clears_shared_example =
    delete_topic-clears_shared parts running true orders (topic orders) 1 (partition orders 1) refl
      refl refl refl

apply_config-Applied_example :
    let cfg = record default_config { compression_type = pos 2; num_io_goroutines = pos 6 } in
    Applied parts fresh (apply_config parts fresh cfg).1 cfg (apply_config parts fresh cfg).0
apply_config-Applied_example =
    apply_config-Applied parts fresh
      (record default_config { compression_type = pos 2; num_io_goroutines = pos 6 })
      (new_broker-IsConsistent parts 85 default_config 0 none)

-- The same broker with the power of two choices, and some publishes in flight.
abbrev choosing : Parts
choosing = with_p2c parts (λ k. k)

abbrev balanced : Broker choosing
balanced = record {
  config = running.config;
  codec = running.codec;
  io_slots = running.io_slots;
  balancer = (
    record {
      load_ewma = none;
      depth_norm = none;
      inflight = some (4 ∷ 1 ∷ []);
      alpha = 1;
      load_weight = 1;
      depth_weight = 1;
      inflight_weight = 2;
    },
    0,
  );
  backpressure = running.backpressure;
  scheduler_factory = none;
  topics = running.topics;
  schedulers = running.schedulers;
  collector = running.collector;
  last_snap = none;
  predictor = running.predictor;
  offset_store = none;
}

ready :
    (t : Topic list_wal ℕ)
    → lookup balanced.topics orders ≡ some t
    → (0 < length t.partitions) × HasCounters parts (λ k. k) balanced.balancer (length t.partitions)
unfolding lookup same_key
ready t e =
    subst
      (λ (t : Topic list_wal ℕ).
        (0 < length t.partitions)
        × HasCounters parts (λ k. k) balanced.balancer (length t.partitions))
      (some-inj e) (omega arith, (4 ∷ 1 ∷ [], refl, omega arith, omega arith))

publish-Outcome_example :
    let out = publish choosing (λ i. []) clock 7 balanced orders message in
    Outcome choosing (in_flight parts (λ k. k)) balanced message out out.result
unfolding num_partitions
publish-Outcome_example =
    publish-Outcome choosing (λ i. []) clock 7 balanced orders (HasCounters parts (λ k. k))
      (in_flight parts (λ k. k)) (with_p2c-Tracks parts (λ k. k)) message ready

abbrev two : List Message
two = message ∷ record message { value = 6 ∷ [] } ∷ []

publish_batch-in_flight_example :
    SameCounts choosing
      (in_flight parts (λ k. k))
      balanced.balancer
      (publish_batch choosing
        (λ i. [])
        clock
        7
        (λ gs. gs)
        (λ i. true)
        balanced
        orders
        two).0.balancer
publish_batch-in_flight_example =
    publish_batch-in_flight choosing (HasCounters parts (λ k. k)) (in_flight parts (λ k. k))
      (with_p2c-Tracks parts (λ k. k)) (λ i. []) clock 7 (λ gs. gs) (λ i. true) balanced orders two
      (λ gs. (λ i. refl, λ n h. h)) (λ i. refl) ready
