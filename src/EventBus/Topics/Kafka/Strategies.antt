-- ===== src/EventBus/Topics/Kafka/Strategies.antt =====
-- What ConfigureTopic of sdk/pkg/eventbus/kafka.go does to the cluster under each strategy.
use jxt_core.Base.{
  String, concat, Bool, true, false, Option, none, some, List, [], ◌∷◌, ◌≡◌, ◌⊎◌, refl, ap, sym,
  ◌∙◌, Bool-cases, Option-cases, inl, inr, get_key, set_key, string_eq,
}
use jxt_core.Outbox.Event.{Error, errorf}
use jxt_core.Outbox.Repository.{Result, ok, err}
use jxt_core.EventBus.Topics.Options.{TopicOptions}
use jxt_core.EventBus.Topics.Names.{validate_topic_name}
use jxt_core.EventBus.Topics.Compare.Defs.{
  strategy_create_only, strategy_create_or_update, strategy_validate_only, strategy_skip,
  TopicConfigMismatchAction, should_create_or_update,
}
use jxt_core.EventBus.Topics.Kafka.Cluster.{ClusterAdmin, ConfigEntry, wrapped_by}
use jxt_core.EventBus.Topics.Kafka.Defs.{
  actual_of, get_actual_topic_config, ensure_kafka_topic_idempotent, KafkaTopics, is_known,
  synchronize, configure_topic,
}

-- Describing a topic changes nothing.
pub record Reads (a : ClusterAdmin) : Type 0 where
  pub describe_topics_reads : (ts : List String) (s : a.Store) → (a.describe_topics ts s).1 ≡ s
  pub describe_config_reads : (t : String) (s : a.Store) → (a.describe_config t s).1 ≡ s

module _ (a : ClusterAdmin) where
  abbrev pub under : String → KafkaTopics a → KafkaTopics a
  under strategy k = record k { strategy = strategy }

  pub configure_open :
      (t : String) (o : TopicOptions) (k : KafkaTopics a)
      → validate_topic_name t ≡ none
      → k.closed ≡ false
      → let done = synchronize a k.strategy k.on_mismatch t o (is_known a t k) k.cluster in
        configure_topic a t o k ≡ (
          wrapped_by (concat ("failed to configure topic " ∷ t ∷ ": " ∷ [])) done.0,
          record k { topic_configs = set_key t o k.topic_configs; cluster = done.1 },
        )
  unfolding configure_topic
  configure_open t o k valid open' = rw (valid, open', configure_topic)

  pub configure_invalid :
      (t : String) (o : TopicOptions) (k : KafkaTopics a) (e : Error)
      → validate_topic_name t ≡ some e
      → configure_topic a t o k ≡ (some e, k)
  unfolding configure_topic
  configure_invalid t o k e invalid = rw (invalid, configure_topic)

  pub configure_closed :
      (t : String) (o : TopicOptions) (k : KafkaTopics a)
      → validate_topic_name t ≡ none
      → k.closed ≡ true
      → configure_topic a t o k ≡ (some (errorf ("kafka eventbus is closed" ∷ [])), k)
  unfolding configure_topic
  configure_closed t o k valid closed = rw (valid, closed, configure_topic)

module _ (a : ClusterAdmin) (reads : Reads a) where
  actual_of_reads :
      (t : String) (r : Result (List ConfigEntry)) (s : a.Store) → (actual_of a t r s).1 ≡ s
  unfolding actual_of
  actual_of_reads t (err e) s = refl
  actual_of_reads t (ok entries) s = elim (Option-cases (a.unavailable s)) [
    | inl there ↦ rw (there, actual_of) (reads.describe_topics_reads (t ∷ []) s)
    | inr (e, gone) ↦ rw (gone, actual_of)
  ]

  pub get_actual_reads : (t : String) (s : a.Store) → (get_actual_topic_config a t s).1 ≡ s
  unfolding get_actual_topic_config
  get_actual_reads t s = elim (Option-cases (a.unavailable s)) [
    | inl there ↦
        rw (there, get_actual_topic_config)
          (actual_of_reads t (a.describe_config t s).0 (a.describe_config t s).1
            ∙ reads.describe_config_reads t s)
    | inr (e, gone) ↦ rw (gone, get_actual_topic_config)
  ]

  -- The strategies that only look.
  abbrev pub IsReadOnly : String → Type 0
  IsReadOnly strategy = (strategy ≡ strategy_skip) ⊎ (strategy ≡ strategy_validate_only)

  synchronize_reads :
      (strategy : String) (action : TopicConfigMismatchAction) (t : String) (o : TopicOptions)
      (exists : Bool) (s : a.Store)
      → IsReadOnly strategy
      → (synchronize a strategy action t o exists s).1 ≡ s
  unfolding synchronize
  synchronize_reads strategy action t o exists s (inl e) = rw e refl
  synchronize_reads strategy action t o true s (inr e) = rw e (get_actual_reads t s)
  synchronize_reads strategy action t o false s (inr e) = rw e refl

  -- A topic that was configured before is synchronized by create_only as by create_or_update.
  synchronize-create_only :
      (action : TopicConfigMismatchAction) (t : String) (o : TopicOptions) (s : a.Store)
      → synchronize a strategy_create_only action t o true s
        ≡ synchronize a strategy_create_or_update action t o true s
  unfolding synchronize should_create_or_update
  synchronize-create_only action t o s =
      ap (ensure_kafka_topic_idempotent a t o true) (sym (get_actual_reads t s))

  -- Under the strategies skip and validate_only, ConfigureTopic leaves the cluster as it is, whatever
  -- the topic and the options, given that describing a topic changes nothing.
  pub configure_topic-IsReadOnly :
      (t : String) (o : TopicOptions) (k : KafkaTopics a)
      → IsReadOnly k.strategy
      → (configure_topic a t o k).1.cluster ≡ k.cluster
  configure_topic-IsReadOnly t o k only = elim (Option-cases (validate_topic_name t)) [
    | inr (e, invalid) ↦
        ap (λ (r : Option Error × KafkaTopics a). r.1.cluster) (configure_invalid a t o k e invalid)
    | inl valid ↦ elim (Bool-cases k.closed) [
      | inl closed ↦
          ap (λ (r : Option Error × KafkaTopics a). r.1.cluster)
            (configure_closed a t o k valid closed)
      | inr open' ↦
          ap (λ (r : Option Error × KafkaTopics a). r.1.cluster)
            (configure_open a t o k valid open')
          ∙ synchronize_reads k.strategy k.on_mismatch t o (is_known a t k) k.cluster only
    ]
  ]

  -- For a topic that was configured before, create_only answers what create_or_update answers and
  -- does the same to the cluster: it may change the settings of an existing topic and add partitions.
  pub configure_topic-create_only :
      (t : String) (o o' : TopicOptions) (k : KafkaTopics a)
      → get_key t k.topic_configs ≡ some o'
      → let only = configure_topic a t o (under a strategy_create_only k) in
        let update = configure_topic a t o (under a strategy_create_or_update k) in
        (only.0 ≡ update.0) × (only.1.cluster ≡ update.1.cluster)
  configure_topic-create_only t o o' k known = elim (Option-cases (validate_topic_name t)) [
    | inr (e, invalid) ↦
        let one = configure_invalid a t o (under a strategy_create_only k) e invalid in
        let two = configure_invalid a t o (under a strategy_create_or_update k) e invalid in
        (rw (one, two), rw (one, two))
    | inl valid ↦ elim (Bool-cases k.closed) [
      | inl closed ↦
          let one = configure_closed a t o (under a strategy_create_only k) valid closed in
          let two = configure_closed a t o (under a strategy_create_or_update k) valid closed in
          (rw (one, two), rw (one, two))
      | inr open' ↦
          let one = configure_open a t o (under a strategy_create_only k) valid open' in
          let two = configure_open a t o (under a strategy_create_or_update k) valid open' in
          let same = synchronize-create_only k.on_mismatch t o k.cluster in
          (rw (one, two, known, same), rw (one, two, known, same))
    ]
  ]
