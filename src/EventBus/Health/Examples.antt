-- ===== src/EventBus/Health/Examples.antt =====
-- Examples of the watching of health check messages.
use jxt_core.Base.{ℤ, pos, String, ◌≡◌, refl}
use jxt_core.EventBus.Health.Defs.{
  HealthCheckConfig, HealthCheckSubscriber, new_health_check_subscriber, with_defaults, severity_of,
}

abbrev unset : HealthCheckConfig
unset = record {
  topic = "";
  interval = pos 0;
  timeout = pos 0;
  failure_threshold = pos 0;
  message_ttl = pos 0;
  monitor_interval = pos 0;
  warning_threshold = pos 0;
  error_threshold = pos 0;
  critical_threshold = pos 0;
}

abbrev as_text : ℤ → String
as_text d = "3m0s"

abbrev fresh : HealthCheckSubscriber
fresh = new_health_check_subscriber unset "health" 0

-- With the default threshold the first miss is an error already.
first_miss_test : severity_of (with_defaults "health" unset) (pos 1) ≡ "error"
unfolding severity_of with_defaults
first_miss_test = refl
