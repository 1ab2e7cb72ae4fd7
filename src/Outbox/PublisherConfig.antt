-- ===== src/Outbox/PublisherConfig.antt =====
-- PublisherConfig of sdk/pkg/outbox/publisher.go. A duration is a number of nanoseconds.
use jxt_core.Base.{
  ℕ, ◌*◌, ℤ, pos, ltb_ℤ, ◌≤ℤ◌, ◌≡◌, ◌↔◌, Bool, true, false, Option, none, some, if◌then◌else◌,
  arith,
}

abbrev pub millisecond : ℕ
millisecond = 1000000

abbrev pub second : ℕ
second = 1000 * millisecond

abbrev pub minute : ℕ
minute = 60 * second

abbrev pub hour : ℕ
hour = 60 * minute

-- The callbacks MetricsCollector and ErrorHandler are told apart by being set or `nil`.
pub record PublisherConfig : Type 0 where
  pub max_retries : ℤ
  pub retry_delay : ℤ
  pub publish_timeout : ℤ
  pub enable_metrics : Bool
  pub metrics_collector : Bool
  pub error_handler : Bool
  pub concurrent_publish : Bool
  pub publish_concurrency : ℤ
  pub ack_batch_size : ℤ
  pub ack_batch_flush_interval : ℤ
  pub ack_batch_failure_threshold : ℤ

-- What a rejected configuration violates, in the order of the checks.
pub data ConfigError : Type 0 where
  config_is_nil : ConfigError
  max_retries_negative max_retries_large : ConfigError
  retry_delay_negative retry_delay_large : ConfigError
  publish_timeout_negative publish_timeout_large : ConfigError
  batch_size_negative batch_size_large : ConfigError
  flush_interval_negative flush_interval_large : ConfigError
  threshold_negative : ConfigError

check_fields : PublisherConfig → Option ConfigError
check_fields c =
    if ltb_ℤ c.max_retries (pos 0)
    then some max_retries_negative
    else if ltb_ℤ (pos 100) c.max_retries
    then some max_retries_large
    else if ltb_ℤ c.retry_delay (pos 0)
    then some retry_delay_negative
    else if ltb_ℤ (pos hour) c.retry_delay
    then some retry_delay_large
    else if ltb_ℤ c.publish_timeout (pos 0)
    then some publish_timeout_negative
    else if ltb_ℤ (pos (5 * minute)) c.publish_timeout
    then some publish_timeout_large
    else if ltb_ℤ c.ack_batch_size (pos 0)
    then some batch_size_negative
    else if ltb_ℤ (pos 10000) c.ack_batch_size
    then some batch_size_large
    else if ltb_ℤ c.ack_batch_flush_interval (pos 0)
    then some flush_interval_negative
    else if ltb_ℤ (pos (5 * minute)) c.ack_batch_flush_interval
    then some flush_interval_large
    else if ltb_ℤ c.ack_batch_failure_threshold (pos 0)
    then some threshold_negative
    else none

unfoldable pub validate : Option PublisherConfig → Option ConfigError
unfolding check_fields
validate none = some config_is_nil
validate (some c) = check_fields c

abbrev pub default_flush_interval : ℕ
default_flush_interval = 200 * millisecond

abbrev pub default_failure_threshold : ℕ
default_failure_threshold = 5

unfoldable pub default_publisher_config : PublisherConfig
default_publisher_config = record {
  max_retries = pos 3;
  retry_delay = pos second;
  publish_timeout = pos (30 * second);
  enable_metrics = true;
  metrics_collector = false;
  error_handler = false;
  concurrent_publish = false;
  publish_concurrency = pos 10;
  ack_batch_size = pos 0;
  ack_batch_flush_interval = pos default_flush_interval;
  ack_batch_failure_threshold = pos default_failure_threshold;
}

-- The ranges that the checks enforce.
pub record PublisherInRange (c : PublisherConfig) : Type 0 where
  pub max_retries_fits : (pos 0 ≤ℤ c.max_retries) × (c.max_retries ≤ℤ pos 100)
  pub retry_delay_fits : (pos 0 ≤ℤ c.retry_delay) × (c.retry_delay ≤ℤ pos 3600000000000)
  pub publish_timeout_fits : (pos 0 ≤ℤ c.publish_timeout) × (c.publish_timeout ≤ℤ pos 300000000000)
  pub batch_size_fits : (pos 0 ≤ℤ c.ack_batch_size) × (c.ack_batch_size ≤ℤ pos 10000)
  pub flush_interval_fits :
      (pos 0 ≤ℤ c.ack_batch_flush_interval) × (c.ack_batch_flush_interval ≤ℤ pos 300000000000)
  pub threshold_fits : pos 0 ≤ℤ c.ack_batch_failure_threshold

validate_sound : (c : PublisherConfig) → validate (some c) ≡ none → PublisherInRange c
unfolding validate
validate_sound c h = ground arith

validate_complete : (c : PublisherConfig) → PublisherInRange c → validate (some c) ≡ none
unfolding validate
validate_complete c h = ground arith

-- Validate accepts exactly the configurations whose settings are all in range.
pub validate-PublisherInRange :
    (c : PublisherConfig) → (validate (some c) ≡ none) ↔ PublisherInRange c
validate-PublisherInRange c = (validate_sound c, validate_complete c)
