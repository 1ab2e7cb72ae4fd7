-- ===== src/EventBus/Topics/Nats/Publish.antt =====
-- Publish and ConfigureTopic of sdk/pkg/eventbus/nats.go with what they call. Log messages are left out;
-- of the metrics, the time of the last health check is an argument.
use jxt_core.Base.{
  ℕ, ◌+◌, ◌%◌, ◌^◌, String, str_eq, concat, Bool, true, false, not, ◌&&◌, Option, none, some, List,
  [], ◌∷◌, map, is_none, if◌then◌else◌, State, pure, ◌>>=◌, ◌>>◌, get_key, set_key, delete_key,
  string_eq,
}
use jxt_core.Outbox.Event.{Error, errorf, wrapf}
use jxt_core.Outbox.Repository.{Result, ok, err}
use jxt_core.EventBus.Topics.Options.{
  TopicOptions, topic_persistent, topic_ephemeral, default_topic_options, is_persistent,
}
use jxt_core.EventBus.Topics.Names.{validate_topic_name}
use jxt_core.EventBus.Topics.Compare.Defs.{
  strategy_validate_only, strategy_skip, TopicConfigMismatchAction, handle_config_mismatches,
  compare_topic_options, should_create_or_update,
}
use jxt_core.EventBus.Topics.Nats.Defs.{
  StreamInfo, found, not_found, failed, JetStream, get_stream_name_for_topic, expected_config,
  topic_exists, with_topic, wrapped_by, ensure_topic_in_jet_stream_idempotent,
  get_actual_topic_config,
}

pub record NatsMetrics : Type 0 where
  pub last_health_check : ℕ
  pub messages_published : ℕ
  pub publish_errors : ℕ

-- The next value of an int64, as a bit pattern.
abbrev next : ℕ → ℕ
next n = (n + 1) % 2 ^ 64

module _ (j : JetStream) where
  open j use {
    Store, unavailable, stream_info, add_stream, update_stream, stream_not_found, Message,
    publish_async, disconnected, publish_core,
  }

  unfoldable pub create_stream_for_topic :
      String → String → TopicOptions → State Store (Option Error)
  unfolding expected_config
  create_stream_for_topic name topic o s = elim (unavailable s) [
    | some e ↦ (some (wrapf "failed to get jetstream context: " e), s)
    | none ↦ (
      wrapped_by (concat ("failed to create stream for topic " ∷ topic ∷ ": " ∷ []))
          (add_stream (expected_config name topic o) s).0,
      (add_stream (expected_config name topic o) s).1,
    )
  ]

  -- What addTopicToStream does with the answer of StreamInfo.
  unfoldable pub add_to_found : String → StreamInfo → State Store (Option Error)
  add_to_found topic (failed e) s = (some (wrapf "failed to get stream info: " e), s)
  add_to_found topic not_found s = (some (wrapf "failed to get stream info: " stream_not_found), s)
  add_to_found topic (found c) s = (
    wrapped_by "failed to update stream with new topic: " (update_stream (with_topic topic c) s).0,
    (update_stream (with_topic topic c) s).1,
  )

  unfoldable pub add_topic_to_stream : String → String → State Store (Option Error)
  unfolding add_to_found
  add_topic_to_stream name topic s = elim (unavailable s) [
    | some e ↦ (some (wrapf "failed to get jetstream context: " e), s)
    | none ↦ add_to_found topic (stream_info name s).0 (stream_info name s).1
  ]

  -- What ensureTopicInJetStream does with the answer of StreamInfo.
  unfoldable pub ensure_seen :
      String → String → TopicOptions → StreamInfo → State Store (Option Error)
  unfolding create_stream_for_topic add_topic_to_stream topic_exists
  ensure_seen name topic o (found c) s =
      if topic_exists c.subjects topic then (none, s) else add_topic_to_stream name topic s
  ensure_seen name topic o not_found s = create_stream_for_topic name topic o s
  ensure_seen name topic o (failed e) s = create_stream_for_topic name topic o s

  unfoldable pub ensure_topic_in_jet_stream :
      String → String → TopicOptions → State Store (Option Error)
  unfolding ensure_seen
  ensure_topic_in_jet_stream name topic o s = elim (unavailable s) [
    | some e ↦ (some (wrapf "JetStream not enabled: " e), s)
    | none ↦ ensure_seen name topic o (stream_info name s).0 (stream_info name s).1
  ]

  -- The fields of natsEventBus that the methods below use, and the server.
  pub record NatsTopics : Type 0 where
    pub topic_configs : List (String × TopicOptions)
    pub strategy : String
    pub on_mismatch : TopicConfigMismatchAction
    pub jet_stream_enabled : Bool
    pub stream_name : String
    pub ensured_topics : List (String × Bool)
    pub closed : Bool
    pub error_count : ℕ
    pub published_messages : ℕ
    pub metrics : Option NatsMetrics
    pub server : Store

  abbrev pub stream_of : String → NatsTopics → String
  stream_of topic k = get_stream_name_for_topic k.stream_name topic

  unfoldable pub get_topic_config : String → NatsTopics → TopicOptions
  get_topic_config topic k = elim (get_key topic k.topic_configs) [
    | some o ↦ o
    | none ↦ default_topic_options
  ]

  -- After the topic was ensured, or the error of that.
  unfoldable pub ensured : String → Option Error × Store → NatsTopics → Bool × NatsTopics
  ensured topic (some e, s) k = (false, record k { server = s })
  ensured topic (none, s) k =
      (true, record k { server = s; ensured_topics = set_key topic true k.ensured_topics })

  -- The first half of Publish: whether the message goes to JetStream.
  unfoldable pub route : String → State NatsTopics Bool
  unfolding get_topic_config ensure_topic_in_jet_stream ensured
  route topic k =
      if is_persistent (get_topic_config topic k) k.jet_stream_enabled
        && is_none (unavailable k.server)
      then (if not (str_eq k.strategy strategy_skip) && is_none (get_key topic k.ensured_topics)
          then ensured topic
              (ensure_topic_in_jet_stream (stream_of topic k) topic (get_topic_config topic k)
                k.server)
              k
          else (true, k))
      else (false, k)

  -- The end of Publish, after the call of the client library.
  unfoldable pub published : ℕ → Option Error → State NatsTopics (Option Error)
  published now (some e) k = (some e, record k { error_count = next k.error_count })
  published now none k = (
    none,
    record k {
      metrics = elim k.metrics [
        | none ↦ none
        | some m ↦
            some
              (record m { last_health_check = now; messages_published = next m.messages_published })
      ];
      published_messages = next k.published_messages;
    },
  )

  unfoldable pub send : Bool → String → Message → ℕ → State NatsTopics (Option Error)
  unfolding published
  send true topic message now k =
      published now (publish_async topic message k.server).0
        (record k { server = (publish_async topic message k.server).1 })
  send false topic message now k = elim (disconnected k.server) [
    | some e ↦ (some (wrapf "failed to get nats connection: " e), k)
    | none ↦
        published now (publish_core topic message k.server).0
          (record k { server = (publish_core topic message k.server).1 })
  ]

  unfoldable pub publish : String → Message → ℕ → State NatsTopics (Option Error)
  unfolding route send
  publish topic message now k =
      if k.closed
      then (some (errorf ("eventbus is closed" ∷ [])), k)
      else send (route topic k).0 topic message now (route topic k).1

  abbrev verdict :
      String → TopicOptions → TopicConfigMismatchAction → Result TopicOptions → Option Error
  verdict topic o action (err e) = none
  verdict topic o action (ok actual) =
      handle_config_mismatches (compare_topic_options topic o actual) action

  -- The `switch` of ConfigureTopic; `exists` tells whether the topic was configured before.
  unfoldable pub synchronize :
      String
      → TopicConfigMismatchAction
      → String
      → String
      → TopicOptions
      → Bool
      → State Store (Option Error)
  unfolding ensure_topic_in_jet_stream_idempotent get_actual_topic_config
  synchronize strategy action name topic o exists =
      if str_eq strategy strategy_skip
      then pure none
      else if str_eq strategy strategy_validate_only
      then (if exists
          then (do actual ← get_actual_topic_config j name; pure (verdict topic o action actual))
          else pure none)
      else if (should_create_or_update strategy exists).should_create
      then ensure_topic_in_jet_stream_idempotent j name topic o false
      else if (should_create_or_update strategy exists).should_update
      then (do
        get_actual_topic_config j name
        ensure_topic_in_jet_stream_idempotent j name topic o true)
      else ensure_topic_in_jet_stream_idempotent j name topic o exists

  unfoldable pub configure_topic : String → TopicOptions → State NatsTopics (Option Error)
  unfolding synchronize
  configure_topic topic o k = elim (validate_topic_name topic) [
    | some e ↦ (some e, k)
    | none ↦
        let exists = not (is_none (get_key topic k.topic_configs)) in
        let stored = set_key topic o k.topic_configs in
        if is_persistent o k.jet_stream_enabled && is_none (unavailable k.server)
        then (let done =
              synchronize k.strategy k.on_mismatch (stream_of topic k) topic o exists k.server in
            (
              wrapped_by (concat ("failed to configure topic " ∷ topic ∷ ": " ∷ [])) done.0,
              record k { topic_configs = stored; server = done.1 },
            ))
        else (none, record k { topic_configs = stored })
  ]

  unfoldable pub set_topic_persistence : String → Bool → State NatsTopics (Option Error)
  unfolding configure_topic default_topic_options
  set_topic_persistence topic persistent = configure_topic topic (record default_topic_options {
    persistence_mode = if persistent then topic_persistent else topic_ephemeral;
  })

  unfoldable pub list_configured_topics : NatsTopics → List String
  list_configured_topics k = map (λ (p : String × TopicOptions). p.0) k.topic_configs

  unfoldable pub remove_topic_config : String → NatsTopics → NatsTopics
  remove_topic_config topic k = record k { topic_configs = delete_key topic k.topic_configs }

  unfoldable pub set_topic_config_strategy : String → NatsTopics → NatsTopics
  set_topic_config_strategy strategy k = record k { strategy = strategy }
