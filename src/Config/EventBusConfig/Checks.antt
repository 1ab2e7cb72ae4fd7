-- ===== src/Config/EventBusConfig/Checks.antt =====
-- Validate of sdk/config/eventbus.go: the checks of each part, in the order of the source.
use jxt_core.Base.{
  pos, negsuc, ltb_ℤ, String, str_eq, not, ◌&&◌, ◌||◌, Option, List, [], ◌∷◌, ◌++◌, is_empty,
  if◌then◌else◌,
}
use jxt_core.Outbox.Event.{Error}
use jxt_core.Config.EventBusConfig.Structs.{
  Floats, HealthCheckConfig, SecurityConfig, SubscriberBacklogDetectionConfig, ErrorHandlingConfig,
  KafkaConfig, MemoryConfig, RateLimitConfig, PublisherBacklogDetectionConfig, PublisherConfig,
  SubscriberConfig, EventBusConfig,
}
use jxt_core.Config.EventBusConfig.Rules.{
  Checks, first_error, provided, positive, non_negative, below, is_one_of, supported, nonempty_text,
}
use jxt_core.Config.EventBusConfig.NatsChecks.{validate_nats_config}

unfoldable pub health_check_checks : HealthCheckConfig → Checks
health_check_checks c = provided c.enabled (
    positive c.publisher.interval ("health check publisher interval must be positive" ∷ [])
    ∷ positive c.publisher.timeout ("health check publisher timeout must be positive" ∷ [])
    ∷ positive c.publisher.failure_threshold
        ("health check publisher failure threshold must be positive" ∷ [])
    ∷ positive c.publisher.message_ttl ("health check publisher message TTL must be positive" ∷ [])
    ∷ positive c.subscriber.monitor_interval
        ("health check subscriber monitor interval must be positive" ∷ [])
    ∷ positive c.subscriber.warning_threshold
        ("health check subscriber warning threshold must be positive" ∷ [])
    ∷ positive c.subscriber.error_threshold
        ("health check subscriber error threshold must be positive" ∷ [])
    ∷ positive c.subscriber.critical_threshold
        ("health check subscriber critical threshold must be positive" ∷ [])
    ∷ (
      not (ltb_ℤ c.subscriber.warning_threshold c.subscriber.error_threshold),
      "warning threshold must be less than error threshold" ∷ [],
    )
    ∷ (
      not (ltb_ℤ c.subscriber.error_threshold c.subscriber.critical_threshold),
      "error threshold must be less than critical threshold" ∷ [],
    )
    ∷ [])

-- `side` is publisher or subscriber.
unfoldable pub error_handling_checks : String → ErrorHandlingConfig → Checks
error_handling_checks side c = provided (not (str_eq c.dead_letter_topic "")) (
    non_negative c.max_retry_attempts
      (side ∷ " error handling max retry attempts must be non-negative" ∷ [])
    ∷ non_negative c.retry_backoff_base
        (side ∷ " error handling retry backoff base must be non-negative" ∷ [])
    ∷ non_negative c.retry_backoff_max
        (side ∷ " error handling retry backoff max must be non-negative" ∷ [])
    ∷ below c.retry_backoff_base c.retry_backoff_max
        (side ∷ " error handling retry backoff base must be less than or equal to max" ∷ [])
    ∷ [])

unfoldable pub subscriber_backlog_checks : SubscriberBacklogDetectionConfig → Checks
subscriber_backlog_checks c = provided c.enabled (
    positive c.max_lag_threshold
      ("subscriber backlog detection max lag threshold must be positive" ∷ [])
    ∷ positive c.max_time_threshold
        ("subscriber backlog detection max time threshold must be positive" ∷ [])
    ∷ positive c.check_interval
        ("subscriber backlog detection check interval must be positive" ∷ [])
    ∷ [])

abbrev pub protocols : List String
protocols = "SASL_PLAINTEXT" ∷ "SASL_SSL" ∷ "SSL" ∷ []

unfoldable pub security_checks : SecurityConfig → Checks
security_checks c = provided c.enabled (
    nonempty_text c.protocol ("security protocol is required when security is enabled" ∷ [])
    ∷ (
      not (is_one_of c.protocol protocols),
      "unsupported security protocol: " ∷ c.protocol ∷ " (supported: SASL_PLAINTEXT, SASL_SSL, SSL)"
          ∷ [],
    )
    ∷ [])

unfoldable pub validate_kafka_config : KafkaConfig → Checks
validate_kafka_config c =
    (is_empty c.brokers, "kafka brokers are required" ∷ [])
    ∷ (
      ltb_ℤ c.producer.required_acks (negsuc 0) || ltb_ℤ (pos 1) c.producer.required_acks,
      "kafka producer required acks must be -1, 0, or 1" ∷ [],
    )
    ∷ non_negative c.producer.flush_frequency
        ("kafka producer flush frequency must be non-negative" ∷ [])
    ∷ non_negative c.producer.flush_messages
        ("kafka producer flush messages must be non-negative" ∷ [])
    ∷ non_negative c.producer.timeout ("kafka producer timeout must be non-negative" ∷ [])
    ∷ nonempty_text c.consumer.group_id ("kafka consumer group ID is required" ∷ [])
    ∷ supported c.consumer.auto_offset_reset ("earliest" ∷ "latest" ∷ "none" ∷ []) (
        "unsupported kafka auto offset reset: " ∷ c.consumer.auto_offset_reset
        ∷ " (supported: earliest, latest, none)" ∷ [])
    ∷ non_negative c.consumer.session_timeout
        ("kafka consumer session timeout must be non-negative" ∷ [])
    ∷ non_negative c.consumer.heartbeat_interval
        ("kafka consumer heartbeat interval must be non-negative" ∷ [])
    ∷ []

unfoldable pub validate_memory_config : MemoryConfig → Checks
validate_memory_config c =
    non_negative c.max_channel_size ("memory max channel size must be non-negative" ∷ [])
    ∷ non_negative c.buffer_size ("memory buffer size must be non-negative" ∷ [])
    ∷ []

module _ (fl : Floats) where
  open fl use {is_not_positive}

  unfoldable pub rate_limit_checks : String → RateLimitConfig fl → Checks
  rate_limit_checks side c = provided c.enabled (
      (
        is_not_positive c.rate_per_second,
        side ∷ " rate limit rate per second must be positive" ∷ [],
      )
      ∷ positive c.burst_size (side ∷ " rate limit burst size must be positive" ∷ [])
      ∷ [])

  unfoldable pub publisher_backlog_checks : PublisherBacklogDetectionConfig fl → Checks
  publisher_backlog_checks c = provided c.enabled (
      positive c.max_queue_depth
        ("publisher backlog detection max queue depth must be positive" ∷ [])
      ∷ positive c.max_publish_latency
          ("publisher backlog detection max publish latency must be positive" ∷ [])
      ∷ (
        is_not_positive c.rate_threshold,
        "publisher backlog detection rate threshold must be positive" ∷ [],
      )
      ∷ positive c.check_interval
          ("publisher backlog detection check interval must be positive" ∷ [])
      ∷ [])

  unfoldable pub publisher_checks : PublisherConfig fl → Checks
  unfolding publisher_backlog_checks rate_limit_checks error_handling_checks
  publisher_checks c =
      (non_negative c.max_reconnect_attempts
          ("publisher max reconnect attempts must be non-negative" ∷ [])
        ∷ non_negative c.initial_backoff ("publisher initial backoff must be non-negative" ∷ [])
        ∷ non_negative c.max_backoff ("publisher max backoff must be non-negative" ∷ [])
        ∷ below c.initial_backoff c.max_backoff
            ("publisher initial backoff must be less than or equal to max backoff" ∷ [])
        ∷ positive c.publish_timeout ("publisher publish timeout must be positive" ∷ [])
        ∷ [])
      ++ (publisher_backlog_checks c.backlog_detection
          ++ (rate_limit_checks "publisher" c.rate_limit
              ++ error_handling_checks "publisher" c.error_handling))

  unfoldable pub subscriber_checks : SubscriberConfig fl → Checks
  unfolding subscriber_backlog_checks rate_limit_checks error_handling_checks
  subscriber_checks c =
      (positive c.max_concurrency ("subscriber max concurrency must be positive" ∷ [])
        ∷ positive c.process_timeout ("subscriber process timeout must be positive" ∷ [])
        ∷ [])
      ++ (subscriber_backlog_checks c.backlog_detection
          ++ (rate_limit_checks "subscriber" c.rate_limit
              ++ error_handling_checks "subscriber" c.error_handling))

  -- The `switch` on the type at the end.
  unfoldable pub kind_checks : EventBusConfig fl → Checks
  unfolding validate_kafka_config validate_nats_config validate_memory_config
  kind_checks c =
      if str_eq c.kind "kafka"
      then validate_kafka_config c.kafka
      else if str_eq c.kind "nats"
      then validate_nats_config c.nats
      else if str_eq c.kind "memory"
      then validate_memory_config c.memory
      else []

  unfoldable pub basic_checks : EventBusConfig fl → Checks
  basic_checks c =
      nonempty_text c.kind ("eventbus type is required" ∷ [])
      ∷ (
        not (str_eq c.kind "kafka") && not (str_eq c.kind "nats") && not (str_eq c.kind "memory"),
        "unsupported eventbus type: " ∷ c.kind ∷ [],
      )
      ∷ nonempty_text c.service_name ("service name is required" ∷ [])
      ∷ []

  unfoldable pub validate : EventBusConfig fl → Option Error
  unfolding first_error basic_checks health_check_checks publisher_checks subscriber_checks
      security_checks kind_checks
  validate c = first_error (
      basic_checks c
      ++ (health_check_checks c.health_check
          ++ (publisher_checks c.publisher
              ++ (subscriber_checks c.subscriber
                  ++ (security_checks c.security ++ kind_checks c)))))
