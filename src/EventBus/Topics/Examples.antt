-- ===== src/EventBus/Topics/Examples.antt =====
-- The theorems on the configuration of topics at concrete inputs.
mod Nats
use jxt_core.Base.{
  ℕ, zero, suc, is_none, ◌&&◌, Bool-cases, inl, inr, ℤ, pos, length, get_key, set_key, String,
  str_eq, eq_iff, true, false, Option, none, some, List, [], ◌∷◌, if◌then◌else◌, State, ◌≡◌, ◌≢◌,
  ◌↔◌, ◌⊎◌, refl, ap, sym, arith, concat,
}
use mathlib.Core.Path.{subst}
use jxt_core.Outbox.Event.{Error, errorf}
use jxt_core.Outbox.Repository.{ok}
use jxt_core.EventBus.Topics.Options.{
  is_persistent, TopicOptions, topic_persistent, default_topic_options,
  high_throughput_topic_options,
}
use jxt_core.EventBus.Topics.Names.{validate_topic_name}
use jxt_core.EventBus.Topics.Builder.Defs.{new_topic_builder, prefixed, build}
use jxt_core.EventBus.Topics.Builder.Calls.{
  Call, high_throughput, partitions_call, gzip_call, InRange, run, run-InRange,
}
use jxt_core.EventBus.Topics.Builder.Laws.{IsReady, build-IsReady}
use jxt_core.EventBus.Topics.Compare.Defs.{
  strategy_create_only, strategy_create_or_update, strategy_validate_only, compare_topic_options,
  should_create_or_update,
}
use jxt_core.EventBus.Topics.Compare.Agreement.{Agrees, compare_topic_options-Agrees}
use jxt_core.EventBus.Topics.Kafka.Cluster.{PartitionMetadata, TopicMetadata, ClusterAdmin}
use jxt_core.EventBus.Topics.Kafka.Defs.{KafkaTopics, configure_topic, get_actual_topic_config}
use jxt_core.EventBus.Topics.Kafka.Strategies.{Reads, under, configure_topic-create_only}
use jxt_core.EventBus.Topics.Kafka.Strict.{configure_topic-strict}
use jxt_core.EventBus.Topics.Kafka.Partitions.{Has, KeepsPartitions, max_of, configure_topic-Has}
use jxt_core.EventBus.Topics.Nats.Subjects.{tokens, subject_matches, Covers, subject_matches-Covers}
use jxt_core.EventBus.Topics.Nats.Publish.{NatsTopics, route}
use jxt_core.EventBus.Topics.Nats.Coverage.{IsJetStream, Covered}
use jxt_core.EventBus.Topics.Nats.Runs.{configure_call, publish_call, remove_call, route-Covered}

abbrev seconds : ℤ → String
seconds d = "a duration"

-- An event bus that counts its calls.
abbrev counting : String → TopicOptions → State ℕ (Option Error)
counting topic o n = (none, suc n)

abbrev chain : List Call
chain = high_throughput ∷ partitions_call (pos 15) ∷ gzip_call (pos 12) ∷ []

run-InRange_example : InRange (run seconds chain (new_topic_builder "orders")).options
run-InRange_example = run-InRange seconds "orders" chain

build-IsReady_example :
    let b = run seconds chain (new_topic_builder "orders") in
    (IsReady "orders" chain b.options
      × (build seconds counting b 0 ≡ (
        prefixed
            (concat ("failed to configure topic " ∷ "orders" ∷ ": " ∷ []))
            (counting "orders" b.options 0).0,
        (counting "orders" b.options 0).1,
      )))
    ⊎ ((¬ IsReady "orders" chain b.options)
        × ((e : Error) × (build seconds counting b 0 ≡ (some e, 0))))
build-IsReady_example = build-IsReady seconds counting "orders" chain 0

compare_topic_options-Agrees_example :
    (compare_topic_options "orders" high_throughput_topic_options default_topic_options ≡ [])
    ↔ Agrees high_throughput_topic_options default_topic_options
unfolding high_throughput_topic_options default_topic_options
compare_topic_options-Agrees_example =
    compare_topic_options-Agrees "orders" high_throughput_topic_options default_topic_options
      (omega arith) (omega arith)

-- A cluster with one topic: its number of partitions.
abbrev blank : ℕ → List PartitionMetadata
blank zero = []
blank (suc n) = record { replicas = pos 1 ∷ [] } ∷ blank n

abbrev described : ℕ → TopicMetadata
described n = record { error_code = pos 0; partitions = blank n }

abbrev small_cluster : ClusterAdmin
small_cluster = record {
  Store = ℕ;
  unavailable = λ n. none;
  describe_topics = λ ts n. (ok (described n ∷ []), n);
  describe_config = λ t n. (ok [], n);
  create_topic = λ t d n. (none, 1);
  create_partitions = λ t count n. (none, elim count [ ℤ.pos m ↦ m | ℤ.negsuc m ↦ n ]);
  alter_config = λ t es n. (none, n);
  parse_duration = λ s. none;
  scan_int = λ s. none;
  code_error = λ c. errorf ("kafka server" ∷ []);
}

length-blank : (n : ℕ) → length (blank n) ≡ n
length-blank zero = refl
length-blank (suc n) = ap suc (length-blank n)

small_cluster_reads : Reads small_cluster
small_cluster_reads = record {
  describe_topics_reads = λ ts n. refl;
  describe_config_reads = λ t n. refl;
}

small_cluster_keeps : KeepsPartitions small_cluster
small_cluster_keeps = record {
  reads = small_cluster_reads;
  create_partitions_grows =
      λ t n count s h more fine. (described count, [], refl, refl, length-blank count);
  alter_config_keeps = λ t es n s h. h;
}

-- A bus that has configured `orders`, which has three partitions.
abbrev bus : String → KafkaTopics small_cluster
bus strategy = record {
  topic_configs = ("orders", default_topic_options) ∷ [];
  strategy = strategy;
  on_mismatch = record { log_level = "error"; fail_fast = true };
  closed = false;
  cluster = 3;
}

configure_topic-Has_example :
    ((configure_topic small_cluster "orders" high_throughput_topic_options
        (bus strategy_create_or_update)).0
      ≡ none)
    × Has small_cluster "orders"
        (max_of 3 10)
        (configure_topic small_cluster "orders" high_throughput_topic_options
          (bus strategy_create_or_update)).1.cluster
unfolding validate_topic_name high_throughput_topic_options
configure_topic-Has_example =
    configure_topic-Has small_cluster small_cluster_keeps "orders" high_throughput_topic_options
      (bus strategy_create_or_update) 3 10 refl refl refl refl (described 3, [], refl, refl, refl)
      (omega arith) refl (omega arith) (λ more. refl)

configure_topic-create_only_example :
    let only =
      configure_topic small_cluster "orders" high_throughput_topic_options
        (under small_cluster strategy_create_only (bus strategy_create_only)) in
    let update =
      configure_topic small_cluster "orders" high_throughput_topic_options
        (under small_cluster strategy_create_or_update (bus strategy_create_only)) in
    (only.0 ≡ update.0) × (only.1.cluster ≡ update.1.cluster)
unfolding get_key
configure_topic-create_only_example =
    configure_topic-create_only small_cluster small_cluster_reads "orders"
      high_throughput_topic_options default_topic_options (bus strategy_create_only) refl

abbrev described_orders : TopicOptions
described_orders = record {
  persistence_mode = topic_persistent;
  retention_time = pos 0;
  max_size = pos 0;
  max_messages = pos 0;
  replicas = pos 1;
  partitions = pos 3;
  replication_factor = pos 0;
  compression = "";
  compression_level = pos 0;
  description = "";
}

default_ne_persistent : default_topic_options.persistence_mode ≢ topic_persistent
unfolding default_topic_options
default_ne_persistent e = cc ((eq_iff "auto" "persistent").1 e)

configure_topic-strict_example :
    (e : Error) × ((configure_topic small_cluster "orders" default_topic_options
        (bus strategy_validate_only)).0
      ≡ some e)
unfolding validate_topic_name get_actual_topic_config get_key
configure_topic-strict_example =
    configure_topic-strict small_cluster "orders" default_topic_options default_topic_options
      described_orders (bus strategy_validate_only) refl refl refl refl refl refl
      default_ne_persistent
