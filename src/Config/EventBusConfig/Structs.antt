-- ===== src/Config/EventBusConfig/Structs.antt =====
-- The structs of sdk/config/eventbus.go. A float64 is a parameter with the two tests and the one
-- constant that the file uses.
use jxt_core.Base.{ℤ, String, Bool, false, List, ◌≡◌}

pub record Floats : Type 1 where
  pub Float : Type 0
  -- f == 0
  pub is_zero : Float → Bool
  -- f <= 0
  pub is_not_positive : Float → Bool
  -- 1000.0
  pub thousand : Float

-- 1000.0 is positive.
pub record IsFloats (fl : Floats) : Type 0 where
  pub thousand_positive : fl.is_not_positive fl.thousand ≡ false

pub record HealthCheckPublisherConfig : Type 0 where
  pub topic : String
  pub interval : ℤ
  pub timeout : ℤ
  pub failure_threshold : ℤ
  pub message_ttl : ℤ

pub record HealthCheckSubscriberConfig : Type 0 where
  pub topic : String
  pub monitor_interval : ℤ
  pub warning_threshold : ℤ
  pub error_threshold : ℤ
  pub critical_threshold : ℤ

pub record HealthCheckConfig : Type 0 where
  pub enabled : Bool
  pub publisher : HealthCheckPublisherConfig
  pub subscriber : HealthCheckSubscriberConfig

pub record MetricsConfig : Type 0 where
  pub enabled : Bool
  pub collect_interval : ℤ
  pub export_endpoint : String

pub record SecurityConfig : Type 0 where
  pub enabled : Bool
  pub protocol : String
  pub username : String
  pub password : String
  pub cert_file : String
  pub key_file : String
  pub ca_file : String

pub record SubscriberBacklogDetectionConfig : Type 0 where
  pub enabled : Bool
  pub max_lag_threshold : ℤ
  pub max_time_threshold : ℤ
  pub check_interval : ℤ

pub record ErrorHandlingConfig : Type 0 where
  pub dead_letter_topic : String
  pub max_retry_attempts : ℤ
  pub retry_backoff_base : ℤ
  pub retry_backoff_max : ℤ

pub record ProducerConfig : Type 0 where
  pub required_acks : ℤ
  pub flush_frequency : ℤ
  pub flush_messages : ℤ
  pub timeout : ℤ

pub record ConsumerConfig : Type 0 where
  pub group_id : String
  pub auto_offset_reset : String
  pub session_timeout : ℤ
  pub heartbeat_interval : ℤ

pub record KafkaConfig : Type 0 where
  pub brokers : List String
  pub producer : ProducerConfig
  pub consumer : ConsumerConfig

pub record StreamConfig : Type 0 where
  pub name : String
  pub subjects : List String
  pub retention : String
  pub storage : String
  pub replicas : ℤ
  pub max_age : ℤ
  pub max_bytes : ℤ
  pub max_msgs : ℤ
  pub discard : String

pub record NatsConsumerConfig : Type 0 where
  pub durable_name : String
  pub deliver_policy : String
  pub ack_policy : String
  pub replay_policy : String
  pub max_ack_pending : ℤ
  pub max_waiting : ℤ
  pub max_deliver : ℤ
  pub back_off : List ℤ

pub record JetStreamConfig : Type 0 where
  pub enabled : Bool
  pub domain : String
  pub api_prefix : String
  pub publish_timeout : ℤ
  pub ack_wait : ℤ
  pub max_deliver : ℤ
  pub stream : StreamConfig
  pub consumer : NatsConsumerConfig

pub record NatsSecurityConfig : Type 0 where
  pub enabled : Bool
  pub token : String
  pub username : String
  pub password : String
  pub nkey_file : String
  pub cred_file : String
  pub cert_file : String
  pub key_file : String
  pub ca_file : String
  pub skip_verify : Bool

pub record NatsConfig : Type 0 where
  pub urls : List String
  pub client_id : String
  pub max_reconnects : ℤ
  pub reconnect_wait : ℤ
  pub connection_timeout : ℤ
  pub jet_stream : JetStreamConfig
  pub security : NatsSecurityConfig

pub record MemoryConfig : Type 0 where
  pub max_channel_size : ℤ
  pub buffer_size : ℤ

module _ (fl : Floats) where
  pub record RateLimitConfig : Type 0 where
    pub enabled : Bool
    pub rate_per_second : fl.Float
    pub burst_size : ℤ

  pub record PublisherBacklogDetectionConfig : Type 0 where
    pub enabled : Bool
    pub max_queue_depth : ℤ
    pub max_publish_latency : ℤ
    pub rate_threshold : fl.Float
    pub check_interval : ℤ

  pub record PublisherConfig : Type 0 where
    pub max_reconnect_attempts : ℤ
    pub initial_backoff : ℤ
    pub max_backoff : ℤ
    pub publish_timeout : ℤ
    pub backlog_detection : PublisherBacklogDetectionConfig
    pub rate_limit : RateLimitConfig
    pub error_handling : ErrorHandlingConfig

  pub record SubscriberConfig : Type 0 where
    pub max_concurrency : ℤ
    pub process_timeout : ℤ
    pub backlog_detection : SubscriberBacklogDetectionConfig
    pub rate_limit : RateLimitConfig
    pub error_handling : ErrorHandlingConfig

  -- `kind` is the field Type.
  pub record EventBusConfig : Type 0 where
    pub kind : String
    pub service_name : String
    pub health_check : HealthCheckConfig
    pub monitoring : MetricsConfig
    pub security : SecurityConfig
    pub publisher : PublisherConfig
    pub subscriber : SubscriberConfig
    pub kafka : KafkaConfig
    pub nats : NatsConfig
    pub memory : MemoryConfig
