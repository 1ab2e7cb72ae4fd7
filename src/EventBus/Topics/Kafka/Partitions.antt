-- ===== src/EventBus/Topics/Kafka/Partitions.antt =====
-- How many partitions a topic has after ConfigureTopic (sdk/pkg/eventbus/kafka.go).
use jxt_core.Base.{
  ℕ, ◌≤◌, ◌<◌, ltb, pos, length, String, concat, Bool, true, false, Option, none, List, [], ◌∷◌,
  is_empty, if◌then◌else◌, ltb→lt, ◌≡◌, refl, ap, sym, ◌∙◌, arith, Bool-cases, inl, inr,
}
use mathlib.Core.Path.{subst}
use jxt_core.Outbox.Event.{Error}
use jxt_core.Outbox.Repository.{ok}
use jxt_core.EventBus.Health.Defs.{max_int32, to_int32}
use jxt_core.EventBus.Topics.Options.{TopicOptions}
use jxt_core.EventBus.Topics.Names.{validate_topic_name}
use jxt_core.EventBus.Topics.Compare.Defs.{
  strategy_create_or_update, TopicConfigMismatchAction, should_create_or_update,
}
use jxt_core.EventBus.Topics.Kafka.Cluster.{ClusterAdmin, TopicMetadata, update_entries, wrapped_by}
use jxt_core.EventBus.Topics.Kafka.Defs.{
  expand_partitions, update_config, ensure_described, ensure_kafka_topic_idempotent, KafkaTopics,
  synchronize, configure_topic, is_known,
}
use jxt_core.EventBus.Topics.Kafka.Strategies.{Reads, configure_open, get_actual_reads}

-- The cluster has the topic, with n partitions.
abbrev pub Has : (a : ClusterAdmin) → String → ℕ → a.Store → Type 0
Has a t n s =
    (m : TopicMetadata) × (ms : List TopicMetadata) × ((a.describe_topics (t ∷ []) s).0
      ≡ ok (m ∷ ms))
    × (m.error_code ≡ pos 0)
    × (length m.partitions ≡ n)

-- What the calls of sarama are documented to do with the partitions of a topic.
pub record KeepsPartitions (a : ClusterAdmin) : Type 0 where
  pub reads : Reads a
  pub create_partitions_grows :
      (t : String) (n count : ℕ) (s : a.Store)
      → Has a t n s
      → n < count
      → (a.create_partitions t (pos count) s).0 ≡ none
      → Has a t count (a.create_partitions t (pos count) s).1
  pub alter_config_keeps :
      (t : String) (es : List (String × String)) (n : ℕ) (s : a.Store)
      → Has a t n s
      → Has a t n (a.alter_config t es s).1

-- The larger number.
abbrev pub max_of : ℕ → ℕ → ℕ
max_of n w = if ltb n w then w else n

small-to_int32 : (n : ℕ) → n ≤ max_int32 → to_int32 (pos n) ≡ pos n
unfolding to_int32
small-to_int32 n h = ground (arith, h)

module _ (a : ClusterAdmin) (keeps : KeepsPartitions a) (t : String) (o : TopicOptions) where
  update_config-Has : (n : ℕ) (s : a.Store) → Has a t n s → Has a t n (update_config a t o s)
  unfolding update_config
  update_config-Has n s h = elim (Bool-cases (is_empty (update_entries o))) [
    | inl nothing ↦ rw nothing h
    | inr entries ↦ rw entries (keeps.alter_config_keeps t (update_entries o) n s h)
  ]

  -- The wanted number of partitions, which the cluster accepts if it is the larger one.
  module _ (n w : ℕ) (least : 1 ≤ n) (most : n ≤ max_int32) (wanted : o.partitions ≡ pos w)
      (given_w : 1 ≤ w) (most_w : w ≤ max_int32) where
    expand_more :
        (s : a.Store) (m : TopicMetadata)
        → length m.partitions ≡ n
        → n < w
        → expand_partitions a t o m s ≡ (a.create_partitions t (pos w) s).1
    unfolding expand_partitions
    expand_more s m count more =
        rw (wanted, count, small-to_int32 n most, small-to_int32 w most_w) (ground arith)

    expand_none :
        (s : a.Store) (m : TopicMetadata)
        → length m.partitions ≡ n
        → w ≤ n
        → expand_partitions a t o m s ≡ s
    unfolding expand_partitions
    expand_none s m count enough =
        rw (wanted, count, small-to_int32 n most, small-to_int32 w most_w) (ground arith)

    expand-Has :
        (s : a.Store) (m : TopicMetadata)
        → Has a t n s
        → length m.partitions ≡ n
        → (n < w → (a.create_partitions t (pos w) s).0 ≡ none)
        → Has a t (max_of n w) (expand_partitions a t o m s)
    expand-Has s m h count grows = elim (Bool-cases (ltb n w)) [
      | inl more ↦
          rw (more, expand_more s m count (ltb→lt n w more))
            (keeps.create_partitions_grows t n w s h (ltb→lt n w more) (grows (ltb→lt n w more)))
      | inr enough ↦ rw (enough, expand_none s m count (ground (arith, enough))) h
    ]

    ensure-Has :
        (s : a.Store)
        → a.unavailable s ≡ none
        → Has a t n s
        → (n < w → (a.create_partitions t (pos w) s).0 ≡ none)
        → ((ensure_kafka_topic_idempotent a t o true s).0 ≡ none)
          × Has a t (max_of n w) (ensure_kafka_topic_idempotent a t o true s).1
    unfolding ensure_kafka_topic_idempotent ensure_described
    ensure-Has s there (m, ms, found, fine, count) grows =
        rw
          (
            there,
            ensure_kafka_topic_idempotent,
            found,
            keeps.reads.describe_topics_reads (t ∷ []) s,
            fine,
          )
          (
            refl,
            update_config-Has (max_of n w) (expand_partitions a t o m s)
                (expand-Has s m (m, ms, found, fine, count) count grows),
          )

  synchronize-ensure :
      (strategy : String) (action : TopicConfigMismatchAction) (exists : Bool) (s : a.Store)
      → strategy ≡ strategy_create_or_update
      → synchronize a strategy action t o exists s ≡ ensure_kafka_topic_idempotent a t o true s
  unfolding synchronize should_create_or_update
  synchronize-ensure strategy action true s e =
      rw e (ap (ensure_kafka_topic_idempotent a t o true) (get_actual_reads a keeps.reads t s))
  synchronize-ensure strategy action false s e = rw e refl

-- Let a topic with a valid name have n partitions in a reachable cluster, and let w be asked for, both
-- between 1 and 2^31 - 1. Under create_or_update ConfigureTopic of an event bus that is not closed
-- succeeds, whether or not it knows the topic, and the topic has then the larger of n and w partitions, given that the cluster accepts to
-- add partitions if w is the larger one.
pub configure_topic-Has :
    (a : ClusterAdmin) (keeps : KeepsPartitions a) (t : String) (o : TopicOptions)
    (k : KafkaTopics a) (n w : ℕ)
    → validate_topic_name t ≡ none
    → k.closed ≡ false
    → k.strategy ≡ strategy_create_or_update
    → a.unavailable k.cluster ≡ none
    → Has a t n k.cluster
    → (1 ≤ n) × (n ≤ max_int32)
    → o.partitions ≡ pos w
    → (1 ≤ w) × (w ≤ max_int32)
    → (n < w → (a.create_partitions t (pos w) k.cluster).0 ≡ none)
    → ((configure_topic a t o k).0 ≡ none)
      × Has a t (max_of n w) (configure_topic a t o k).1.cluster
configure_topic-Has a keeps t o k n w valid open' strategy there has (ln, mn) wanted (lw, mw)
      grows =
    let done = configure_open a t o k valid open' in
    let same =
      synchronize-ensure a keeps t o k.strategy k.on_mismatch (is_known a t k) k.cluster strategy in
    let (fine, after) = ensure-Has a keeps t o n w ln mn wanted lw mw k.cluster there has grows in
    let before = concat ("failed to configure topic " ∷ t ∷ ": " ∷ []) in
    (
      ap (λ (r : Option Error × KafkaTopics a). r.0) done
          ∙ ap (λ (r : Option Error × a.Store). wrapped_by before r.0) same
          ∙ ap (wrapped_by before) fine,
      subst (Has a t (max_of n w))
          (sym (
            ap (λ (r : Option Error × KafkaTopics a). r.1.cluster) done
            ∙ ap (λ (r : Option Error × a.Store). r.1) same))
          after,
    )
