-- ===== src/Config/EventBusConfig/NatsChecks.antt =====
-- What Validate of sdk/config/eventbus.go checks of the settings of NATS.
use jxt_core.Base.{
  negsuc, ltb_ℤ, String, str_eq, Bool, not, ◌&&◌, ◌||◌, List, [], ◌∷◌, ◌++◌, is_empty,
}
use jxt_core.Config.EventBusConfig.Structs.{
  StreamConfig, NatsConsumerConfig, JetStreamConfig, NatsSecurityConfig, NatsConfig,
}
use jxt_core.Config.EventBusConfig.Rules.{Checks, provided, non_negative, supported, nonempty_text}

unfoldable pub stream_checks : StreamConfig → Checks
stream_checks c =
    nonempty_text c.name ("nats jetstream stream name is required" ∷ [])
    ∷ (is_empty c.subjects, "nats jetstream stream subjects are required" ∷ [])
    ∷ supported c.retention ("limits" ∷ "interest" ∷ "workqueue" ∷ []) (
        "unsupported nats jetstream retention: " ∷ c.retention
        ∷ " (supported: limits, interest, workqueue)" ∷ [])
    ∷ supported c.storage ("file" ∷ "memory" ∷ [])
        ("unsupported nats jetstream storage: " ∷ c.storage ∷ " (supported: file, memory)" ∷ [])
    ∷ non_negative c.replicas ("nats jetstream stream replicas must be non-negative" ∷ [])
    ∷ non_negative c.max_age ("nats jetstream stream max age must be non-negative" ∷ [])
    ∷ non_negative c.max_bytes ("nats jetstream stream max bytes must be non-negative" ∷ [])
    ∷ non_negative c.max_msgs ("nats jetstream stream max msgs must be non-negative" ∷ [])
    ∷ supported c.discard ("old" ∷ "new" ∷ [])
        ("unsupported nats jetstream discard: " ∷ c.discard ∷ " (supported: old, new)" ∷ [])
    ∷ []

abbrev pub policies : List String
policies = "all" ∷ "last" ∷ "new" ∷ "by_start_sequence" ∷ "by_start_time" ∷ []

unfoldable pub nats_consumer_checks : NatsConsumerConfig → Checks
nats_consumer_checks c =
    supported c.deliver_policy policies (
      "unsupported nats jetstream deliver policy: " ∷ c.deliver_policy
      ∷ " (supported: all, last, new, by_start_sequence, by_start_time)" ∷ [])
    ∷ supported c.ack_policy ("none" ∷ "all" ∷ "explicit" ∷ []) (
        "unsupported nats jetstream ack policy: " ∷ c.ack_policy
        ∷ " (supported: none, all, explicit)" ∷ [])
    ∷ supported c.replay_policy ("instant" ∷ "original" ∷ []) (
        "unsupported nats jetstream replay policy: " ∷ c.replay_policy
        ∷ " (supported: instant, original)" ∷ [])
    ∷ non_negative c.max_ack_pending
        ("nats jetstream consumer max ack pending must be non-negative" ∷ [])
    ∷ non_negative c.max_waiting ("nats jetstream consumer max waiting must be non-negative" ∷ [])
    ∷ non_negative c.max_deliver ("nats jetstream consumer max deliver must be non-negative" ∷ [])
    ∷ []

unfoldable pub jet_stream_checks : JetStreamConfig → Checks
unfolding stream_checks nats_consumer_checks
jet_stream_checks c = provided c.enabled (
    (non_negative c.publish_timeout ("nats jetstream publish timeout must be non-negative" ∷ [])
      ∷ non_negative c.ack_wait ("nats jetstream ack wait must be non-negative" ∷ [])
      ∷ non_negative c.max_deliver ("nats jetstream max deliver must be non-negative" ∷ [])
      ∷ [])
    ++ (stream_checks c.stream ++ nats_consumer_checks c.consumer))

unfoldable pub has_auth : NatsSecurityConfig → Bool
has_auth c =
    not (str_eq c.token "")
    || (not (str_eq c.username "") && not (str_eq c.password ""))
    || not (str_eq c.nkey_file "")
    || not (str_eq c.cred_file "")

unfoldable pub nats_security_checks : NatsSecurityConfig → Checks
unfolding has_auth
nats_security_checks c = provided c.enabled (
    (
      not (has_auth c),
      "nats security enabled but no authentication method provided (token, username/password, nkey, or cred file)"
          ∷ [],
    )
    ∷ [])

unfoldable pub validate_nats_config : NatsConfig → Checks
unfolding jet_stream_checks nats_security_checks
validate_nats_config c =
    ((is_empty c.urls, "nats URLs are required" ∷ [])
      ∷ (
        ltb_ℤ c.max_reconnects (negsuc 0),
        "nats max reconnects must be -1 (unlimited) or non-negative" ∷ [],
      )
      ∷ non_negative c.reconnect_wait ("nats reconnect wait must be non-negative" ∷ [])
      ∷ non_negative c.connection_timeout ("nats connection timeout must be non-negative" ∷ [])
      ∷ [])
    ++ (jet_stream_checks c.jet_stream ++ nats_security_checks c.security)
