-- ===== src/Lib.antt =====
-- NyaQueue: a message queue with topics, partitions over write-ahead logs and priority scheduling.
--
-- The parts of the program that are modelled, and where:
--
-- - EntryRing: `entryRing` of pkg/broker/priority_index.go, the ring buffer of pending entries, with
--   each of its methods (push_back for pushBack, and so on). EntryRing/Queue is the bounded queue
--   that it is to implement.
-- - PriorityIndex: `PriorityIndex` of pkg/broker/priority_index.go, ten levels of such rings with
--   counters that are machine words. A pending entry is a log offset with its arrival time.
-- - Message (with Bytes): pkg/broker/message.go, the wire format of messages and of their headers.
-- - Codec: pkg/broker/compression.go, the choice of a codec. The compressors are a parameter.
-- - Wal: what the program uses of github.com/tidwall/wal, as a record of operations with the
--   behaviour that its documentation promises as named hypotheses. Wal/ListLog is a log that has
--   that behaviour.
-- - Partition: pkg/broker/partition.go. Its records hold messages (Message), plain or in compressed
--   batches (Codec), in a log (Wal), and its priority index (PriorityIndex) holds the offsets that
--   are pending. Partition/Methods has the methods that append, read and rebuild,
--   Partition/Retention those that shorten the log. The promise is in Partition/View: a partition is
--   a list of messages, one at each offset.
-- - Scheduler: pkg/scheduler/fifo.go and priority.go, the schedulers that choose the next message of
--   a partition, by its offset or by the partition's priority index.
-- - Balancer/RoundRobin and Balancer/P2c: pkg/balancer/round_robin.go and p2c.go, which choose the
--   partition for a message. Floating-point numbers are a parameter (`Floats`).
-- - OffsetStore: pkg/broker/offset_store.go, the offsets that consumer groups have committed, over a
--   key-value store that is a parameter. `digits` has more rounds than its number has digits.
-- - Backpressure: pkg/broker/backpressure.go, which throttles producers by predicted loads.
-- - Config: pkg/broker/config.go, the configuration, its rules and its parameters by name.
-- - Topic: pkg/broker/topic.go, the partitions of a topic.
-- - Replay and Replay/Prioritized: pkg/nn/replay_buffer.go, the two buffers of transitions that the
--   learning components draw from.
-- - LoadPredictor: pkg/broker/load_predictor.go, the histories of loads and the forecasts made of
--   them, with the recursion of Levinson and Durbin.
-- - Metrics: pkg/broker/metrics.go, the counters of the broker and the snapshots.
-- - Broker: pkg/broker/broker.go. It owns topics and schedulers by name, a balancer, a controller of
--   the backpressure, a predictor, metrics and an offset store. `Parts` has what it uses through
--   interfaces: the log, the balancer, the schedulers and the store. Broker/Topics has the methods on
--   topics and ApplyConfig, Broker/Publish and Broker/Batch those of producers, Broker/Consume those
--   of consumers, Broker/Ticks the bodies of the three loops and Stop. Broker/PowerOfTwo is the
--   broker with the balancer of Balancer/P2c, which meets the law that Broker/Publish/Refusals states
--   of a balancer as long as it has counters for all partitions.
--
-- State. A method on a pointer takes the state and returns the new one beside its results; an error
-- is a value of the component's own Error. Slices are lists, and bytes, times and offsets numbers;
-- a word keeps its wrap-around (`add64`, `% mod32`), and an int64 that is stored as a word is
-- that word. Readings of the clock, what a buffer pool hands out and random choices are arguments.
--
-- Loops are structural on the number of rounds left, which the source bounds by a length, by the
-- number of levels or by the next offset, so none runs out of rounds early. The unreachable case of
-- `find_message`, behind its last round, is the error that the source returns there.
--
-- Not modelled: the locking (a method's critical sections follow one another undisturbed) and the
-- goroutines that the broker and the predictor start; the groups of a PublishBatch are appended in
-- an order that is an argument. The laws of floating-point numbers: where a theorem needs one, it is
-- a hypothesis. Also the Prometheus collectors, the deep Q-networks and the optimizer, the
-- preprocessing, the balancer PSA, transport, commands, experiments and generated code.
pub mod Prelude
pub mod EntryRing
pub mod PriorityIndex
pub mod Bytes
pub mod Message
pub mod Codec
pub mod Wal
pub mod Partition
pub mod Scheduler
pub mod Balancer
pub mod Backpressure
pub mod OffsetStore
pub mod Config
pub mod Topic
pub mod Broker
pub mod Replay
pub mod LoadPredictor
pub mod Metrics
