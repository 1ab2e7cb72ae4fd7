-- ===== src/EventBus/Topics/Kafka.antt =====
-- The configuration of Kafka topics (sdk/pkg/eventbus/kafka.go): the calls of the cluster (Cluster), the
-- methods (Defs), what each strategy does to the cluster (Strategies, Strict), and how many partitions
-- a topic has afterwards (Partitions).
pub mod Cluster
pub mod Defs
pub mod Strategies
pub mod Strict
pub mod Partitions
