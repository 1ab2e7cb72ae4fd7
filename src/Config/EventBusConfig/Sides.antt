-- ===== src/Config/EventBusConfig/Sides.antt =====
-- Which settings of the publisher and the subscriber Validate accepts after SetDefaults (sdk/config/eventbus.go).
use jxt_core.Base.{pos, ◌≤ℤ◌, ◌++◌, ◌↔◌, arith}
use jxt_core.Config.EventBusConfig.Structs.{Floats, IsFloats, PublisherConfig, SubscriberConfig}
use jxt_core.Config.EventBusConfig.Defaults.{
  error_handling_defaults, subscriber_backlog_defaults, rate_limit_defaults,
  publisher_backlog_defaults, publisher_defaults, subscriber_defaults,
}
use jxt_core.Config.EventBusConfig.Checks.{
  error_handling_checks, subscriber_backlog_checks, rate_limit_checks, publisher_backlog_checks,
  publisher_checks, subscriber_checks,
}
use jxt_core.Config.EventBusConfig.Thresholds.{
  Passes, Passes-append, positive_iff, non_negative_iff, BackoffAccepted, backoff_iff,
  ErrorHandlingAccepted, error_handling_accepted,
}
use jxt_core.Config.EventBusConfig.Parts.{
  SubscriberBacklogAccepted, subscriber_backlog_accepted, RateLimitAccepted, rate_limit_accepted,
  PublisherBacklogAccepted, publisher_backlog_accepted,
}

module _ (fl : Floats) (laws : IsFloats fl) where
  pub record PublisherAccepted (c : PublisherConfig fl) : Type 0 where
    pub attempts : pos 0 ≤ℤ c.max_reconnect_attempts
    pub backoff : BackoffAccepted c.initial_backoff c.max_backoff
    pub timeout : pos 0 ≤ℤ c.publish_timeout
    pub backlog : PublisherBacklogAccepted fl laws c.backlog_detection
    pub rate : RateLimitAccepted fl laws c.rate_limit
    pub errors : ErrorHandlingAccepted c.error_handling

  pub publisher_accepted :
      (c : PublisherConfig fl)
      → Passes (publisher_checks fl (publisher_defaults fl c)) ↔ PublisherAccepted c
  unfolding publisher_checks publisher_defaults
  publisher_accepted c =
      let attempts = non_negative_iff c.max_reconnect_attempts 5 in
      let timeout = positive_iff c.publish_timeout 10000000000 (omega arith) in
      let b = publisher_backlog_checks fl (publisher_backlog_defaults fl c.backlog_detection) in
      let r = rate_limit_checks fl "publisher" (rate_limit_defaults fl c.rate_limit) in
      let e = error_handling_checks "publisher" (error_handling_defaults c.error_handling) in
      (
        λ (a, (i, (m, (o, (t, rest))))).
            let (backlog, rest') = (Passes-append b (r ++ e)).0 rest in
            let (rate, errors) = (Passes-append r e).0 rest' in
            record {
              attempts = attempts.0 a;
              backoff = (backoff_iff c.initial_backoff c.max_backoff).0 (i, m, o);
              timeout = timeout.0 t;
              backlog = (publisher_backlog_accepted fl laws c.backlog_detection).0 backlog;
              rate = (rate_limit_accepted fl laws "publisher" c.rate_limit).0 rate;
              errors = (error_handling_accepted "publisher" c.error_handling).0 errors;
            },
        λ p.
            let (i, m, o) = (backoff_iff c.initial_backoff c.max_backoff).1 p.backoff in
            (
              attempts.1 p.attempts,
              (
                i,
                (
                  m,
                  (
                    o,
                    (
                      timeout.1 p.timeout,
                      (Passes-append b (r ++ e)).1 (
                        (publisher_backlog_accepted fl laws c.backlog_detection).1 p.backlog,
                        (Passes-append r e).1 (
                          (rate_limit_accepted fl laws "publisher" c.rate_limit).1 p.rate,
                          (error_handling_accepted "publisher" c.error_handling).1 p.errors,
                        ),
                      ),
                    ),
                  ),
                ),
              ),
            ),
      )

  pub record SubscriberAccepted (c : SubscriberConfig fl) : Type 0 where
    pub concurrency : pos 0 ≤ℤ c.max_concurrency
    pub timeout : pos 0 ≤ℤ c.process_timeout
    pub backlog : SubscriberBacklogAccepted c.backlog_detection
    pub rate : RateLimitAccepted fl laws c.rate_limit
    pub errors : ErrorHandlingAccepted c.error_handling

  pub subscriber_accepted :
      (c : SubscriberConfig fl)
      → Passes (subscriber_checks fl (subscriber_defaults fl c)) ↔ SubscriberAccepted c
  unfolding subscriber_checks subscriber_defaults
  subscriber_accepted c =
      let concurrency = positive_iff c.max_concurrency 10 (omega arith) in
      let timeout = positive_iff c.process_timeout 30000000000 (omega arith) in
      let b = subscriber_backlog_checks (subscriber_backlog_defaults c.backlog_detection) in
      let r = rate_limit_checks fl "subscriber" (rate_limit_defaults fl c.rate_limit) in
      let e = error_handling_checks "subscriber" (error_handling_defaults c.error_handling) in
      (
        λ (n, (t, rest)).
            let (backlog, rest') = (Passes-append b (r ++ e)).0 rest in
            let (rate, errors) = (Passes-append r e).0 rest' in
            record {
              concurrency = concurrency.0 n;
              timeout = timeout.0 t;
              backlog = (subscriber_backlog_accepted c.backlog_detection).0 backlog;
              rate = (rate_limit_accepted fl laws "subscriber" c.rate_limit).0 rate;
              errors = (error_handling_accepted "subscriber" c.error_handling).0 errors;
            },
        λ p. (
          concurrency.1 p.concurrency,
          (
            timeout.1 p.timeout,
            (Passes-append b (r ++ e)).1 (
              (subscriber_backlog_accepted c.backlog_detection).1 p.backlog,
              (Passes-append r e).1 (
                (rate_limit_accepted fl laws "subscriber" c.rate_limit).1 p.rate,
                (error_handling_accepted "subscriber" c.error_handling).1 p.errors,
              ),
            ),
          ),
        ),
      )
