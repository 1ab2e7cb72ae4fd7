-- ===== src/EventBus/Topics/Kafka/Defs.antt =====
-- ConfigureTopic and its relatives of sdk/pkg/eventbus/kafka.go. The cluster is a state that the calls
-- of sarama's ClusterAdmin read and change; those calls, time.ParseDuration and fmt.Sscanf are
-- parameters. Log messages are left out.
use jxt_core.Base.{
  ℤ, pos, ltb_ℤ, eqb_ℤ, String, str_eq, str_append, concat, Bool, true, not, ◌&&◌, Option, none,
  some, List, [], ◌∷◌, map, is_none, is_empty, if◌then◌else◌, State, pure, ◌>>=◌, ◌>>◌, get_key,
  set_key, delete_key, string_eq,
}
use jxt_core.Outbox.Event.{Error, errorf, wrapf}
use jxt_core.Outbox.Repository.{Result, ok, err}
use jxt_core.EventBus.Health.Defs.{to_int32}
use jxt_core.EventBus.Topics.Options.{
  TopicOptions, topic_persistent, topic_ephemeral, default_topic_options,
}
use jxt_core.EventBus.Topics.Names.{validate_topic_name}
use jxt_core.EventBus.Topics.Compare.Defs.{
  strategy_create_or_update, strategy_validate_only, strategy_skip, TopicConfigMismatchAction,
  handle_config_mismatches, compare_topic_options, should_create_or_update,
}
use jxt_core.EventBus.Topics.Kafka.Cluster.{
  TopicMetadata, ConfigEntry, ClusterAdmin, given, update_entries, topic_detail, wrapped_by,
  unavailable_error, actual_partitions, bare_options, or_kept, with_metadata,
}

module _ (a : ClusterAdmin) where
  open a use {
    Store, unavailable, describe_topics, describe_config, create_topic, create_partitions,
    alter_config, parse_duration, scan_int, code_error,
  }

  unfoldable pub create_kafka_topic : String → TopicOptions → State Store (Option Error)
  create_kafka_topic topic o s = elim (unavailable s) [
    | some e ↦ (some (unavailable_error e), s)
    | none ↦ (
      wrapped_by (concat ("failed to create Kafka topic " ∷ topic ∷ ": " ∷ []))
          (create_topic topic (topic_detail o) s).0,
      (create_topic topic (topic_detail o) s).1,
    )
  ]

  -- More partitions, if more are wanted; a failure is only logged.
  unfoldable pub expand_partitions : String → TopicOptions → TopicMetadata → Store → Store
  expand_partitions topic o m s =
      if given o.partitions
        && given (actual_partitions m)
        && ltb_ℤ (actual_partitions m) (to_int32 o.partitions)
      then (create_partitions topic (to_int32 o.partitions) s).1
      else s

  -- The other settings, if there are any; a failure is only logged.
  unfoldable pub update_config : String → TopicOptions → Store → Store
  update_config topic o s =
      if is_empty (update_entries o) then s else (alter_config topic (update_entries o) s).1

  unfoldable pub ensure_described :
      String → TopicOptions → Bool → Result (List TopicMetadata) → State Store (Option Error)
  unfolding create_kafka_topic expand_partitions update_config
  ensure_described topic o allow_update (err e) s = create_kafka_topic topic o s
  ensure_described topic o allow_update (ok []) s = create_kafka_topic topic o s
  ensure_described topic o allow_update (ok (m ∷ ms)) s =
      if not (eqb_ℤ m.error_code (pos 0))
      then create_kafka_topic topic o s
      else if allow_update
      then (none, update_config topic o (expand_partitions topic o m s))
      else (none, s)

  unfoldable pub ensure_kafka_topic_idempotent :
      String → TopicOptions → Bool → State Store (Option Error)
  unfolding ensure_described
  ensure_kafka_topic_idempotent topic o allow_update s = elim (unavailable s) [
    | some e ↦ (some (unavailable_error e), s)
    | none ↦
        ensure_described topic o allow_update (describe_topics (topic ∷ []) s).0
          (describe_topics (topic ∷ []) s).1
  ]

  -- One round of the loop over the entries.
  unfoldable pub read_entry : ConfigEntry → TopicOptions → TopicOptions
  read_entry e o =
      if str_eq e.name "retention.ms"
      then (if not (str_eq e.value "")
          then record o {
            retention_time = or_kept (parse_duration (str_append e.value "ms")) o.retention_time;
          }
          else o)
      else if str_eq e.name "retention.bytes"
      then (if not (str_eq e.value "")
          then record o { max_size = or_kept (scan_int e.value) o.max_size }
          else o)
      else o

  unfoldable pub read_entries : List ConfigEntry → TopicOptions → TopicOptions
  unfolding read_entry
  read_entries [] o = o
  read_entries (e ∷ es) o = read_entries es (read_entry e o)

  unfoldable pub actual_of : String → Result (List ConfigEntry) → State Store (Result TopicOptions)
  unfolding read_entries
  actual_of topic (err e) s = (err (wrapf "failed to describe topic config: " e), s)
  actual_of topic (ok entries) s = elim (unavailable s) [
    | some e ↦ (ok (read_entries entries bare_options), s)
    | none ↦ (
      ok (with_metadata (describe_topics (topic ∷ []) s).0 (read_entries entries bare_options)),
      (describe_topics (topic ∷ []) s).1,
    )
  ]

  unfoldable pub get_actual_topic_config : String → State Store (Result TopicOptions)
  unfolding actual_of
  get_actual_topic_config topic s = elim (unavailable s) [
    | some e ↦ (err (unavailable_error e), s)
    | none ↦ actual_of topic (describe_config topic s).0 (describe_config topic s).1
  ]

  unfoldable pub partitions_of : String → Result (List TopicMetadata) → Result ℤ
  partitions_of topic (err e) =
      err (wrapf (concat ("failed to describe topic " ∷ topic ∷ ": " ∷ [])) e)
  partitions_of topic (ok []) = err (errorf ("topic " ∷ topic ∷ " not found" ∷ []))
  partitions_of topic (ok (m ∷ ms)) =
      if not (eqb_ℤ m.error_code (pos 0))
      then err
          (wrapf (concat ("topic " ∷ topic ∷ " not available: " ∷ [])) (code_error m.error_code))
      else ok (actual_partitions m)

  unfoldable pub get_topic_partitions : String → State Store (Result ℤ)
  unfolding partitions_of
  get_topic_partitions topic s = elim (unavailable s) [
    | some e ↦ (err (unavailable_error e), s)
    | none ↦
        (partitions_of topic (describe_topics (topic ∷ []) s).0, (describe_topics (topic ∷ []) s).1)
  ]

  -- The fields of kafkaEventBus that the methods below use, and the cluster.
  pub record KafkaTopics : Type 0 where
    pub topic_configs : List (String × TopicOptions)
    pub strategy : String
    pub on_mismatch : TopicConfigMismatchAction
    pub closed : Bool
    pub cluster : Store

  abbrev pub verdict :
      String → TopicOptions → TopicConfigMismatchAction → Result TopicOptions → Option Error
  verdict topic o action (err e) = none
  verdict topic o action (ok actual) =
      handle_config_mismatches (compare_topic_options topic o actual) action

  -- The `switch` of ConfigureTopic; `exists` tells whether the topic was configured before.
  unfoldable pub synchronize :
      String → TopicConfigMismatchAction → String → TopicOptions → Bool → State Store (Option Error)
  unfolding ensure_kafka_topic_idempotent get_actual_topic_config
  synchronize strategy action topic o exists =
      if str_eq strategy strategy_skip
      then pure none
      else if str_eq strategy strategy_validate_only
      then (if exists
          then (do actual ← get_actual_topic_config topic; pure (verdict topic o action actual))
          else pure none)
      else if (should_create_or_update strategy exists).should_create
      then ensure_kafka_topic_idempotent topic o (str_eq strategy strategy_create_or_update)
      else if (should_create_or_update strategy exists).should_update
      then (do get_actual_topic_config topic; ensure_kafka_topic_idempotent topic o true)
      else ensure_kafka_topic_idempotent topic o exists

  abbrev pub is_known : String → KafkaTopics → Bool
  is_known topic k = not (is_none (get_key topic k.topic_configs))

  unfoldable pub configure_topic : String → TopicOptions → State KafkaTopics (Option Error)
  unfolding synchronize
  configure_topic topic o k = elim (validate_topic_name topic) [
    | some e ↦ (some e, k)
    | none ↦
        if k.closed
        then (some (errorf ("kafka eventbus is closed" ∷ [])), k)
        else (let done =
              synchronize k.strategy k.on_mismatch topic o (is_known topic k) k.cluster in
            (
              wrapped_by (concat ("failed to configure topic " ∷ topic ∷ ": " ∷ [])) done.0,
              record k { topic_configs = set_key topic o k.topic_configs; cluster = done.1 },
            ))
  ]

  unfoldable pub set_topic_persistence : String → Bool → State KafkaTopics (Option Error)
  unfolding configure_topic default_topic_options
  set_topic_persistence topic persistent = configure_topic topic (record default_topic_options {
    persistence_mode = if persistent then topic_persistent else topic_ephemeral;
  })

  unfoldable pub get_topic_config : String → KafkaTopics → TopicOptions
  get_topic_config topic k = elim (get_key topic k.topic_configs) [
    | some o ↦ o
    | none ↦ default_topic_options
  ]

  unfoldable pub list_configured_topics : KafkaTopics → List String
  list_configured_topics k = map (λ (p : String × TopicOptions). p.0) k.topic_configs

  unfoldable pub remove_topic_config : String → KafkaTopics → KafkaTopics
  remove_topic_config topic k = record k { topic_configs = delete_key topic k.topic_configs }

  unfoldable pub set_topic_config_strategy : String → KafkaTopics → KafkaTopics
  set_topic_config_strategy strategy k = record k { strategy = strategy }
