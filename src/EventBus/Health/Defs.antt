-- ===== src/EventBus/Health/Defs.antt =====
-- HealthCheckSubscriber of sdk/pkg/eventbus/health_check_subscriber.go: its state under the messages that
-- it receives and the ticks of its monitor. Instants are nanoseconds, durations are integers.
use jxt_core.Base.{
  ℕ, zero, suc, ◌+◌, ◌-◌, ◌*◌, ◌/◌, ◌%◌, ◌^◌, ◌==◌, leb, ℤ, pos, negsuc, sub_ℕ, ltb_ℤ, eqb_ℤ,
  add_counter, String, str_eq, concat, show_int, Bool, true, false, not, Option, none, some, List,
  [], ◌∷◌, if◌then◌else◌,
}

-- The fields of config.HealthCheckConfig that are read.
pub record HealthCheckConfig : Type 0 where
  pub topic : String
  pub interval : ℤ
  pub timeout : ℤ
  pub failure_threshold : ℤ
  pub message_ttl : ℤ
  pub monitor_interval : ℤ
  pub warning_threshold : ℤ
  pub error_threshold : ℤ
  pub critical_threshold : ℤ

-- The source, the topic and what follows from the other fields are left out.
pub record HealthCheckAlert : Type 0 where
  pub severity : String
  pub message : String
  pub last_message_time : Option ℕ
  pub consecutive_misses : ℤ
  pub timestamp : ℕ

-- The counts and the uptime, which GetStats computes again, are left out.
pub record HealthCheckSubscriberStats : Type 0 where
  pub start_time : ℕ
  pub last_received : Option ℕ
  pub total_alerts : ℕ
  pub last_alert_time : Option ℕ
  pub is_healthy : Bool

-- `alerts` are those that were handed to the callbacks, the latest first. The zero time is `none`.
pub record HealthCheckSubscriber : Type 0 where
  pub config : HealthCheckConfig
  pub last_message_time : Option ℕ
  pub consecutive_misses : ℤ
  pub total_messages_received : ℕ
  pub stats : HealthCheckSubscriberStats
  pub alerts : List HealthCheckAlert

abbrev pub minute : ℕ
minute = 60 * 1000000000

abbrev pub or_default : ℤ → ℕ → ℤ
or_default n d = if eqb_ℤ n (pos 0) then pos d else n

unfoldable pub with_defaults : String → HealthCheckConfig → HealthCheckConfig
with_defaults default_topic c = record {
  topic = if str_eq c.topic "" then default_topic else c.topic;
  interval = or_default c.interval (2 * minute);
  timeout = or_default c.timeout 10000000000;
  failure_threshold = or_default c.failure_threshold 3;
  message_ttl = or_default c.message_ttl (5 * minute);
  monitor_interval = or_default c.monitor_interval 30000000000;
  warning_threshold = or_default c.warning_threshold 3;
  error_threshold = or_default c.error_threshold 5;
  critical_threshold = or_default c.critical_threshold 10;
}

-- `default_topic` is GetHealthCheckTopic of the kind of event bus.
unfoldable pub new_health_check_subscriber : HealthCheckConfig → String → ℕ → HealthCheckSubscriber
unfolding with_defaults
new_health_check_subscriber c default_topic now = record {
  config = with_defaults default_topic c;
  last_message_time = none;
  consecutive_misses = pos 0;
  total_messages_received = 0;
  stats = record {
    start_time = now;
    last_received = none;
    total_alerts = 0;
    last_alert_time = none;
    is_healthy = false;
  };
  alerts = [];
}

abbrev pub max_int32 : ℕ
max_int32 = 2 ^ 31 - 1

-- int32(n)
unfoldable pub to_int32 : ℤ → ℤ
to_int32 (pos n) = let m = n % 2 ^ 32 in if leb m max_int32 then pos m else negsuc (2 ^ 32 - 1 - m)
to_int32 (negsuc n) =
    let m = n % 2 ^ 32 in if leb m max_int32 then negsuc m else pos (2 ^ 32 - 1 - m)

-- Add(1) on an atomic.Int32
unfoldable pub int32_incr : ℤ → ℤ
int32_incr (pos n) = if n == max_int32 then negsuc max_int32 else pos (n + 1)
int32_incr (negsuc zero) = pos 0
int32_incr (negsuc (suc n)) = negsuc n

-- n / 2, towards 0
unfoldable pub half : ℤ → ℤ
half (pos n) = pos (n / 2)
half (negsuc zero) = pos 0
half (negsuc (suc n)) = negsuc ((n + 2) / 2 - 1)

abbrev pub threshold_of : HealthCheckConfig → ℤ
threshold_of c = to_int32 c.failure_threshold

-- The level of an alert by the number of misses.
unfoldable pub severity_of : HealthCheckConfig → ℤ → String
unfolding to_int32 half
severity_of c misses =
    if not (ltb_ℤ misses (threshold_of c))
    then "critical"
    else if not (ltb_ℤ misses (half (threshold_of c)))
    then "error"
    else "warning"

-- The number of misses is the one that the atomic holds, which checkHealthStatus has just written.
unfoldable pub trigger_alert : String → String → ℕ → HealthCheckSubscriber → HealthCheckSubscriber
trigger_alert severity message now s = record s {
  stats = record s.stats {
    total_alerts = add_counter s.stats.total_alerts 1;
    last_alert_time = some now;
    is_healthy = not (str_eq severity "critical");
  };
  alerts =
      record {
        severity = severity;
        message = message;
        last_message_time = s.last_message_time;
        consecutive_misses = s.consecutive_misses;
        timestamp = now;
      }
      ∷ s.alerts;
}

-- A miss, and its alert. `format` is the text of the elapsed time.
unfoldable pub miss : (ℤ → String) → ℕ → HealthCheckSubscriber → HealthCheckSubscriber
unfolding int32_incr severity_of trigger_alert
miss text now s =
    let misses = int32_incr s.consecutive_misses in
    trigger_alert (severity_of s.config misses) (text misses) now
      (record s { consecutive_misses = misses })

abbrev pub silent_since_start : ℤ → String
silent_since_start misses = concat (
    "No health check messages received since startup (consecutive misses: "
    ∷ show_int misses
    ∷ ")"
    ∷ [])

-- `%v` of a duration is an argument.
abbrev pub silent_for : (ℤ → String) → ℤ → ℤ → String
silent_for show_duration elapsed misses = concat (
    "No health check messages received for "
    ∷ show_duration elapsed
    ∷ " (consecutive misses: "
    ∷ show_int misses
    ∷ ")"
    ∷ [])

unfoldable pub check_health_status :
    (ℤ → String) → ℕ → HealthCheckSubscriber → HealthCheckSubscriber
unfolding miss
check_health_status show_duration now s = elim s.last_message_time [
  | none ↦
      if ltb_ℤ s.config.interval (sub_ℕ now s.stats.start_time)
      then miss silent_since_start now s
      else s
  | some last ↦
      if ltb_ℤ s.config.interval (sub_ℕ now last)
      then miss (silent_for show_duration (sub_ℕ now last)) now s
      else s
]

abbrev pub is_healthy_now : HealthCheckSubscriber → Bool
is_healthy_now s = ltb_ℤ s.consecutive_misses (threshold_of s.config)

-- A message that the parser refuses changes nothing.
unfoldable pub handle_health_check_message :
    Bool → ℕ → HealthCheckSubscriber → HealthCheckSubscriber
unfolding to_int32
handle_health_check_message false now s = s
handle_health_check_message true now s = record s {
  last_message_time = some now;
  total_messages_received = add_counter s.total_messages_received 1;
  consecutive_misses = pos 0;
  stats = record s.stats {
    last_received = some now;
    is_healthy = ltb_ℤ (pos 0) (threshold_of s.config);
  };
}

-- What happens: a message, with whether it can be parsed, or a tick of the monitor; each at a time.
pub data HealthEvent : Type 0 where
  message_at : Bool → ℕ → HealthEvent
  tick_at : ℕ → HealthEvent

unfoldable pub on_health_event :
    (ℤ → String) → HealthEvent → HealthCheckSubscriber → HealthCheckSubscriber
unfolding check_health_status handle_health_check_message
on_health_event f (message_at parsed now) s = handle_health_check_message parsed now s
on_health_event f (tick_at now) s = check_health_status f now s

unfoldable pub watch_health :
    (ℤ → String) → List HealthEvent → HealthCheckSubscriber → HealthCheckSubscriber
unfolding on_health_event
watch_health f [] s = s
watch_health f (e ∷ es) s = watch_health f es (on_health_event f e s)
