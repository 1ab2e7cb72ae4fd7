-- ===== src/Config/EventBusConfig/Defaults.antt =====
-- SetDefaults of sdk/config/eventbus.go, a function for each part that it fills.
use jxt_core.Base.{ℕ, ◌*◌, ℤ, pos, eqb_ℤ, String, str_eq, not, if◌then◌else◌}
use jxt_core.EventBus.Topics.Options.{second, minute, hour}
use jxt_core.Config.EventBusConfig.Structs.{
  Floats, HealthCheckConfig, MetricsConfig, SubscriberBacklogDetectionConfig, ErrorHandlingConfig,
  KafkaConfig, StreamConfig, NatsConsumerConfig, JetStreamConfig, NatsConfig, MemoryConfig,
  RateLimitConfig, PublisherBacklogDetectionConfig, PublisherConfig, SubscriberConfig,
  EventBusConfig,
}

-- if n == 0 { n = d }
abbrev pub or_default : ℤ → ℕ → ℤ
or_default n d = if eqb_ℤ n (pos 0) then pos d else n

-- if s == "" { s = d }
abbrev pub or_text : String → String → String
or_text s d = if str_eq s "" then d else s

unfoldable pub health_check_defaults : HealthCheckConfig → HealthCheckConfig
health_check_defaults c =
    if c.enabled
    then record c {
      publisher = record c.publisher {
        interval = or_default c.publisher.interval (2 * minute);
        timeout = or_default c.publisher.timeout (10 * second);
        failure_threshold = or_default c.publisher.failure_threshold 3;
        message_ttl = or_default c.publisher.message_ttl (5 * minute);
      };
      subscriber = record c.subscriber {
        monitor_interval = or_default c.subscriber.monitor_interval (30 * second);
        warning_threshold = or_default c.subscriber.warning_threshold 3;
        error_threshold = or_default c.subscriber.error_threshold 5;
        critical_threshold = or_default c.subscriber.critical_threshold 10;
      };
    }
    else c

unfoldable pub error_handling_defaults : ErrorHandlingConfig → ErrorHandlingConfig
error_handling_defaults c =
    if not (str_eq c.dead_letter_topic "")
    then record c {
      max_retry_attempts = or_default c.max_retry_attempts 3;
      retry_backoff_base = or_default c.retry_backoff_base second;
      retry_backoff_max = or_default c.retry_backoff_max (30 * second);
    }
    else c

unfoldable pub subscriber_backlog_defaults :
    SubscriberBacklogDetectionConfig → SubscriberBacklogDetectionConfig
subscriber_backlog_defaults c =
    if c.enabled
    then record c {
      max_lag_threshold = or_default c.max_lag_threshold 10000;
      max_time_threshold = or_default c.max_time_threshold (5 * minute);
      check_interval = or_default c.check_interval (30 * second);
    }
    else c

unfoldable pub monitoring_defaults : MetricsConfig → MetricsConfig
monitoring_defaults c =
    if c.enabled
    then record c { collect_interval = or_default c.collect_interval (30 * second) }
    else c

unfoldable pub set_kafka_defaults : KafkaConfig → KafkaConfig
set_kafka_defaults c = record c {
  producer = record c.producer {
    required_acks = or_default c.producer.required_acks 1;
    flush_frequency = or_default c.producer.flush_frequency 500000000;
    flush_messages = or_default c.producer.flush_messages 100;
    timeout = or_default c.producer.timeout (10 * second);
  };
  consumer = record c.consumer {
    auto_offset_reset = or_text c.consumer.auto_offset_reset "latest";
    session_timeout = or_default c.consumer.session_timeout (30 * second);
    heartbeat_interval = or_default c.consumer.heartbeat_interval (3 * second);
  };
}

unfoldable pub stream_defaults : StreamConfig → StreamConfig
stream_defaults c = record c {
  retention = or_text c.retention "limits";
  storage = or_text c.storage "file";
  replicas = or_default c.replicas 1;
  max_age = or_default c.max_age (24 * hour);
  max_bytes = or_default c.max_bytes (1024 * 1024 * 1024);
  max_msgs = or_default c.max_msgs 1000000;
  discard = or_text c.discard "old";
}

unfoldable pub nats_consumer_defaults : NatsConsumerConfig → NatsConsumerConfig
nats_consumer_defaults c = record c {
  deliver_policy = or_text c.deliver_policy "all";
  ack_policy = or_text c.ack_policy "explicit";
  replay_policy = or_text c.replay_policy "instant";
  max_ack_pending = or_default c.max_ack_pending 1000;
  max_waiting = or_default c.max_waiting 512;
  max_deliver = or_default c.max_deliver 5;
}

unfoldable pub jet_stream_defaults : JetStreamConfig → JetStreamConfig
unfolding stream_defaults nats_consumer_defaults
jet_stream_defaults c =
    if c.enabled
    then record c {
      publish_timeout = or_default c.publish_timeout (10 * second);
      ack_wait = or_default c.ack_wait (30 * second);
      max_deliver = or_default c.max_deliver 5;
      stream = stream_defaults c.stream;
      consumer = nats_consumer_defaults c.consumer;
    }
    else c

unfoldable pub set_nats_defaults : NatsConfig → NatsConfig
unfolding jet_stream_defaults
set_nats_defaults c = record c {
  max_reconnects = or_default c.max_reconnects 10;
  reconnect_wait = or_default c.reconnect_wait (2 * second);
  connection_timeout = or_default c.connection_timeout (10 * second);
  jet_stream = jet_stream_defaults c.jet_stream;
}

unfoldable pub set_memory_defaults : MemoryConfig → MemoryConfig
set_memory_defaults c = record c {
  max_channel_size = or_default c.max_channel_size 1000;
  buffer_size = or_default c.buffer_size 100;
}

module _ (fl : Floats) where
  open fl use {Float, is_zero, thousand}

  abbrev pub or_thousand : Float → Float
  or_thousand f = if is_zero f then thousand else f

  unfoldable pub rate_limit_defaults : RateLimitConfig fl → RateLimitConfig fl
  rate_limit_defaults c =
      if c.enabled
      then record c {
        rate_per_second = or_thousand c.rate_per_second;
        burst_size = or_default c.burst_size 100;
      }
      else c

  unfoldable pub publisher_backlog_defaults :
      PublisherBacklogDetectionConfig fl → PublisherBacklogDetectionConfig fl
  publisher_backlog_defaults c =
      if c.enabled
      then record c {
        max_queue_depth = or_default c.max_queue_depth 10000;
        max_publish_latency = or_default c.max_publish_latency second;
        rate_threshold = or_thousand c.rate_threshold;
        check_interval = or_default c.check_interval (10 * second);
      }
      else c

  unfoldable pub publisher_defaults : PublisherConfig fl → PublisherConfig fl
  publisher_defaults c = record c {
    max_reconnect_attempts = or_default c.max_reconnect_attempts 5;
    initial_backoff = or_default c.initial_backoff second;
    max_backoff = or_default c.max_backoff (30 * second);
    publish_timeout = or_default c.publish_timeout (10 * second);
    backlog_detection = publisher_backlog_defaults c.backlog_detection;
    rate_limit = rate_limit_defaults c.rate_limit;
    error_handling = error_handling_defaults c.error_handling;
  }

  unfoldable pub subscriber_defaults : SubscriberConfig fl → SubscriberConfig fl
  subscriber_defaults c = record c {
    max_concurrency = or_default c.max_concurrency 10;
    process_timeout = or_default c.process_timeout (30 * second);
    backlog_detection = subscriber_backlog_defaults c.backlog_detection;
    rate_limit = rate_limit_defaults c.rate_limit;
    error_handling = error_handling_defaults c.error_handling;
  }

  -- The `switch` on the type at the end.
  unfoldable pub kind_defaults : EventBusConfig fl → EventBusConfig fl
  kind_defaults c =
      if str_eq c.kind "kafka"
      then record c { kafka = set_kafka_defaults c.kafka }
      else if str_eq c.kind "nats"
      then record c { nats = set_nats_defaults c.nats }
      else if str_eq c.kind "memory"
      then record c { memory = set_memory_defaults c.memory }
      else c

  unfoldable pub set_defaults : EventBusConfig fl → EventBusConfig fl
  unfolding kind_defaults
  set_defaults c = kind_defaults (record c {
    kind = or_text c.kind "memory";
    health_check = health_check_defaults c.health_check;
    publisher = publisher_defaults c.publisher;
    subscriber = subscriber_defaults c.subscriber;
    monitoring = monitoring_defaults c.monitoring;
  })
