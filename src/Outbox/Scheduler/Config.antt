-- ===== src/Outbox/Scheduler/Config.antt =====
-- SchedulerConfig of sdk/pkg/outbox/scheduler.go. The two DLQ handlers and the metrics collector
-- are no part of the record here: the handlers are fields of the scheduler.
use jxt_core.Base.{
  ℕ, ◌*◌, ℤ, pos, ltb_ℤ, ◌≤ℤ◌, ◌≡◌, refl, ◌↔◌, Bool, true, Option, none, some, if◌then◌else◌, arith,
}
use jxt_core.Outbox.PublisherConfig.{second, minute, hour}

pub record SchedulerConfig : Type 0 where
  pub poll_interval : ℤ
  pub batch_size : ℤ
  pub tenant_id : ℤ
  pub cleanup_interval : ℤ
  pub cleanup_retention : ℤ
  pub health_check_interval : ℤ
  pub enable_health_check : Bool
  pub enable_cleanup : Bool
  pub enable_metrics : Bool
  pub enable_retry : Bool
  pub retry_interval : ℤ
  pub max_retries : ℤ
  pub enable_dlq : Bool
  pub dlq_interval : ℤ
  pub shutdown_timeout : ℤ

pub data SchedulerConfigError : Type 0 where
  config_is_nil : SchedulerConfigError
  poll_interval_not_positive poll_interval_small poll_interval_large : SchedulerConfigError
  batch_size_not_positive batch_size_large : SchedulerConfigError
  cleanup_interval_not_positive cleanup_interval_small : SchedulerConfigError
  cleanup_retention_not_positive cleanup_retention_small : SchedulerConfigError
  health_check_interval_not_positive health_check_interval_small : SchedulerConfigError
  retry_interval_not_positive retry_interval_small : SchedulerConfigError
  max_retries_negative max_retries_large : SchedulerConfigError
  dlq_interval_not_positive dlq_interval_small : SchedulerConfigError
  shutdown_timeout_negative shutdown_timeout_large : SchedulerConfigError

-- `x <= 0`, then `x < least`.
at_least : ℤ → ℕ → SchedulerConfigError → SchedulerConfigError → Option SchedulerConfigError
at_least x least e e' =
    if ltb_ℤ (pos 0) x then (if ltb_ℤ x (pos least) then some e' else none) else some e

-- The first error of two checks.
abbrev first :
    Option SchedulerConfigError → Option SchedulerConfigError → Option SchedulerConfigError
first none r = r
first (some e) r = some e

unfoldable pub check_poll : SchedulerConfig → Option SchedulerConfigError
unfolding at_least
check_poll c =
    first (at_least c.poll_interval second poll_interval_not_positive poll_interval_small) (
      if ltb_ℤ (pos hour) c.poll_interval
      then some poll_interval_large
      else if ltb_ℤ (pos 0) c.batch_size
      then (if ltb_ℤ (pos 10000) c.batch_size then some batch_size_large else none)
      else some batch_size_not_positive)

unfoldable pub check_cleanup : SchedulerConfig → Option SchedulerConfigError
unfolding at_least
check_cleanup c =
    if c.enable_cleanup
    then first
        (at_least c.cleanup_interval minute cleanup_interval_not_positive cleanup_interval_small)
        (at_least c.cleanup_retention hour cleanup_retention_not_positive cleanup_retention_small)
    else none

unfoldable pub check_health : SchedulerConfig → Option SchedulerConfigError
unfolding at_least
check_health c =
    if c.enable_health_check
    then at_least c.health_check_interval second health_check_interval_not_positive
        health_check_interval_small
    else none

unfoldable pub check_retry : SchedulerConfig → Option SchedulerConfigError
unfolding at_least
check_retry c =
    if c.enable_retry
    then first (at_least c.retry_interval second retry_interval_not_positive retry_interval_small) (
        if ltb_ℤ c.max_retries (pos 0)
        then some max_retries_negative
        else if ltb_ℤ (pos 100) c.max_retries
        then some max_retries_large
        else none)
    else none

unfoldable pub check_dlq : SchedulerConfig → Option SchedulerConfigError
unfolding at_least
check_dlq c =
    if c.enable_dlq
    then at_least c.dlq_interval second dlq_interval_not_positive dlq_interval_small
    else none

unfoldable pub check_shutdown : SchedulerConfig → Option SchedulerConfigError
check_shutdown c =
    if ltb_ℤ c.shutdown_timeout (pos 0)
    then some shutdown_timeout_negative
    else if ltb_ℤ (pos (5 * minute)) c.shutdown_timeout
    then some shutdown_timeout_large
    else none

unfoldable pub validate : Option SchedulerConfig → Option SchedulerConfigError
validate none = some config_is_nil
validate (some c) = first (check_poll c) (
    first (check_cleanup c)
      (first (check_health c) (first (check_retry c) (first (check_dlq c) (check_shutdown c)))))

unfoldable pub default_scheduler_config : SchedulerConfig
default_scheduler_config = record {
  poll_interval = pos (10 * second);
  batch_size = pos 100;
  tenant_id = pos 0;
  cleanup_interval = pos hour;
  cleanup_retention = pos (24 * hour);
  health_check_interval = pos (30 * second);
  enable_health_check = true;
  enable_cleanup = true;
  enable_metrics = true;
  enable_retry = true;
  retry_interval = pos (30 * second);
  max_retries = pos 3;
  enable_dlq = true;
  dlq_interval = pos (5 * minute);
  shutdown_timeout = pos (30 * second);
}

-- The ranges that the checks enforce; those of a loop that is switched off are free.
abbrev pub PollFits : SchedulerConfig → Type 0
PollFits c =
    (pos 1000000000 ≤ℤ c.poll_interval)
    × (c.poll_interval ≤ℤ pos 3600000000000)
    × (pos 1 ≤ℤ c.batch_size)
    × (c.batch_size ≤ℤ pos 10000)

abbrev pub CleanupFits : SchedulerConfig → Type 0
CleanupFits c =
    c.enable_cleanup ≡ true
    → (pos 60000000000 ≤ℤ c.cleanup_interval) × (pos 3600000000000 ≤ℤ c.cleanup_retention)

abbrev pub HealthFits : SchedulerConfig → Type 0
HealthFits c = c.enable_health_check ≡ true → pos 1000000000 ≤ℤ c.health_check_interval

abbrev pub RetryFits : SchedulerConfig → Type 0
RetryFits c =
    c.enable_retry ≡ true
    → (pos 1000000000 ≤ℤ c.retry_interval) × (pos 0 ≤ℤ c.max_retries) × (c.max_retries ≤ℤ pos 100)

abbrev pub DlqFits : SchedulerConfig → Type 0
DlqFits c = c.enable_dlq ≡ true → pos 1000000000 ≤ℤ c.dlq_interval

abbrev pub ShutdownFits : SchedulerConfig → Type 0
ShutdownFits c = (pos 0 ≤ℤ c.shutdown_timeout) × (c.shutdown_timeout ≤ℤ pos 300000000000)

poll_iff : (c : SchedulerConfig) → (check_poll c ≡ none) ↔ PollFits c
unfolding check_poll
poll_iff c = ground arith

cleanup_iff : (c : SchedulerConfig) → (check_cleanup c ≡ none) ↔ CleanupFits c
unfolding check_cleanup
cleanup_iff c = ground arith

health_iff : (c : SchedulerConfig) → (check_health c ≡ none) ↔ HealthFits c
unfolding check_health
health_iff c = ground arith

retry_iff : (c : SchedulerConfig) → (check_retry c ≡ none) ↔ RetryFits c
unfolding check_retry
retry_iff c = ground arith

dlq_iff : (c : SchedulerConfig) → (check_dlq c ≡ none) ↔ DlqFits c
unfolding check_dlq
dlq_iff c = ground arith

shutdown_iff : (c : SchedulerConfig) → (check_shutdown c ≡ none) ↔ ShutdownFits c
unfolding check_shutdown
shutdown_iff c = ground arith

first_none : (a b : Option SchedulerConfigError) → first a b ≡ none → (a ≡ none) × (b ≡ none)
first_none none b h = (refl, h)
first_none (some e) b h = cc

pub record SchedulerInRange (c : SchedulerConfig) : Type 0 where
  pub poll_fits : PollFits c
  pub cleanup_fits : CleanupFits c
  pub health_fits : HealthFits c
  pub retry_fits : RetryFits c
  pub dlq_fits : DlqFits c
  pub shutdown_fits : ShutdownFits c

validate_sound : (c : SchedulerConfig) → validate (some c) ≡ none → SchedulerInRange c
unfolding validate
validate_sound c h =
    let (poll, h₁) = first_none (check_poll c) _ h in
    let (cleanup, h₂) = first_none (check_cleanup c) _ h₁ in
    let (health, h₃) = first_none (check_health c) _ h₂ in
    let (retry, h₄) = first_none (check_retry c) _ h₃ in
    let (dlq, shutdown) = first_none (check_dlq c) _ h₄ in
    record {
      poll_fits = (poll_iff c).0 poll;
      cleanup_fits = (cleanup_iff c).0 cleanup;
      health_fits = (health_iff c).0 health;
      retry_fits = (retry_iff c).0 retry;
      dlq_fits = (dlq_iff c).0 dlq;
      shutdown_fits = (shutdown_iff c).0 shutdown;
    }

validate_complete : (c : SchedulerConfig) → SchedulerInRange c → validate (some c) ≡ none
unfolding validate
validate_complete c r = rw ((poll_iff c).1 r.poll_fits) (
    rw ((cleanup_iff c).1 r.cleanup_fits) (
      rw ((health_iff c).1 r.health_fits) (
        rw ((retry_iff c).1 r.retry_fits)
          (rw ((dlq_iff c).1 r.dlq_fits) ((shutdown_iff c).1 r.shutdown_fits)))))

-- Validate accepts exactly the configurations whose intervals, sizes and limits are in range, where
-- the settings of a loop that is switched off do not matter.
pub validate-SchedulerInRange :
    (c : SchedulerConfig) → (validate (some c) ≡ none) ↔ SchedulerInRange c
validate-SchedulerInRange c = (validate_sound c, validate_complete c)
