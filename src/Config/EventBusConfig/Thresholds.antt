-- ===== src/Config/EventBusConfig/Thresholds.antt =====
-- The thresholds and backoffs that Validate accepts after SetDefaults (sdk/config/eventbus.go).
use jxt_core.Base.{
  ℕ, ℤ, pos, negsuc, ◌≤◌, ltb_ℤ, ◌≤ℤ◌, ◌<ℤ◌, String, str_eq, eq_iff, true, false, not, ◌&&◌, none,
  [], ◌∷◌, ◌++◌, ◌≡◌, ◌≢◌, ◌↔◌, refl, sym, arith, Bool-cases, inl, inr,
}
use mathlib.Core.Path.{subst}
use jxt_core.Config.EventBusConfig.Structs.{HealthCheckConfig, ErrorHandlingConfig}
use jxt_core.Config.EventBusConfig.Defaults.{
  or_default, health_check_defaults, error_handling_defaults,
}
use jxt_core.Config.EventBusConfig.Rules.{Checks, first_error}
use jxt_core.Config.EventBusConfig.Checks.{health_check_checks, error_handling_checks}

-- No check applies.
abbrev pub Passes : Checks → Type 0
Passes [] = Unit {0}
Passes ((applies, message) ∷ cs) = (applies ≡ false) × Passes cs

pub first_error_iff : (cs : Checks) → (first_error cs ≡ none) ↔ Passes cs
unfolding first_error
first_error_iff [] = (λ h. tt, λ h. refl)
first_error_iff ((true, message) ∷ cs) = (λ h. cc, λ h. cc)
first_error_iff ((false, message) ∷ cs) =
    (λ h. (refl, (first_error_iff cs).0 h), λ h. (first_error_iff cs).1 h.1)

pub Passes-append : (cs ds : Checks) → Passes (cs ++ ds) ↔ (Passes cs × Passes ds)
Passes-append [] ds = (λ h. (tt, h), λ h. h.1)
Passes-append ((applies, message) ∷ cs) ds = (
  λ h. let (front, back) = (Passes-append cs ds).0 h.1 in ((h.0, front), back),
  λ h. (h.0.0, (Passes-append cs ds).1 (h.0.1, h.1)),
)

-- A setting that is 0 counts as its default.
abbrev pub HealthAccepted : HealthCheckConfig → Type 0
HealthAccepted c =
    c.enabled ≡ true
    → (pos 0 ≤ℤ c.publisher.interval)
      × (pos 0 ≤ℤ c.publisher.timeout)
      × (pos 0 ≤ℤ c.publisher.failure_threshold)
      × (pos 0 ≤ℤ c.publisher.message_ttl)
      × (pos 0 ≤ℤ c.subscriber.monitor_interval)
      × (pos 0 ≤ℤ c.subscriber.warning_threshold)
      × (or_default c.subscriber.warning_threshold 3 <ℤ or_default c.subscriber.error_threshold 5)
      × (or_default c.subscriber.error_threshold 5 <ℤ or_default c.subscriber.critical_threshold 10)

pub positive_iff :
    (n : ℤ) (d : ℕ) → 1 ≤ d → (not (ltb_ℤ (pos 0) (or_default n d)) ≡ false) ↔ (pos 0 ≤ℤ n)
positive_iff (pos n) d h = ground arith
positive_iff (negsuc n) d h = ground arith

pub non_negative_iff : (n : ℤ) (d : ℕ) → (ltb_ℤ (or_default n d) (pos 0) ≡ false) ↔ (pos 0 ≤ℤ n)
non_negative_iff (pos n) d = ground arith
non_negative_iff (negsuc n) d = ground arith

lt_iff : (a b : ℤ) → (not (ltb_ℤ a b) ≡ false) ↔ (a <ℤ b)
lt_iff a b = ground arith

default_positive : (n : ℤ) (d : ℕ) → 1 ≤ d → pos 0 ≤ℤ n → pos 0 <ℤ or_default n d
default_positive (pos n) d h k = ground arith
default_positive (negsuc n) d h k = absurd (omega arith)

-- The first threshold is positive and the others are larger.
ordered_positive : (a b : ℤ) → pos 0 <ℤ a → a <ℤ b → (not (ltb_ℤ (pos 0) b) ≡ false) × (pos 0 <ℤ b)
ordered_positive a b h k = ground arith

health_on :
    (c : HealthCheckConfig)
    → Passes (health_check_checks (health_check_defaults (record c { enabled = true })))
      ↔ HealthAccepted (record c { enabled = true })
unfolding health_check_checks health_check_defaults
health_on c =
    let w = or_default c.subscriber.warning_threshold 3 in
    let e = or_default c.subscriber.error_threshold 5 in
    let r = or_default c.subscriber.critical_threshold 10 in
    (
      λ (
        interval,
        (timeout, (failure, (ttl, (monitor, (warning, (error, (critical, (we, (ec, _))))))))),
      ).
          λ _. (
            (positive_iff c.publisher.interval _ (omega arith)).0 interval,
            (positive_iff c.publisher.timeout _ (omega arith)).0 timeout,
            (positive_iff c.publisher.failure_threshold _ (omega arith)).0 failure,
            (positive_iff c.publisher.message_ttl _ (omega arith)).0 ttl,
            (positive_iff c.subscriber.monitor_interval _ (omega arith)).0 monitor,
            (positive_iff c.subscriber.warning_threshold _ (omega arith)).0 warning,
            (lt_iff w e).0 we,
            (lt_iff e r).0 ec,
          ),
      λ accepted.
          let (interval, timeout, failure, ttl, monitor, warning, we, ec) = accepted refl in
          let first = default_positive c.subscriber.warning_threshold 3 (omega arith) warning in
          let (error, second) = ordered_positive w e first we in
          let (critical, _) = ordered_positive e r second ec in
          (
            (positive_iff c.publisher.interval _ (omega arith)).1 interval,
            (
              (positive_iff c.publisher.timeout _ (omega arith)).1 timeout,
              (
                (positive_iff c.publisher.failure_threshold _ (omega arith)).1 failure,
                (
                  (positive_iff c.publisher.message_ttl _ (omega arith)).1 ttl,
                  (
                    (positive_iff c.subscriber.monitor_interval _ (omega arith)).1 monitor,
                    (
                      (positive_iff c.subscriber.warning_threshold _ (omega arith)).1 warning,
                      (error, (critical, ((lt_iff w e).1 we, ((lt_iff e r).1 ec, tt)))),
                    ),
                  ),
                ),
              ),
            ),
          ),
    )

pub health_check_accepted :
    (c : HealthCheckConfig)
    → Passes (health_check_checks (health_check_defaults c)) ↔ HealthAccepted c
unfolding health_check_checks health_check_defaults
health_check_accepted c = elim (Bool-cases c.enabled) [
  | inl on ↦
      subst
        (λ b.
          Passes (health_check_checks (health_check_defaults (record c { enabled = b })))
          ↔ HealthAccepted (record c { enabled = b }))
        (sym on) (health_on c)
  | inr off ↦
      subst
        (λ b.
          Passes (health_check_checks (health_check_defaults (record c { enabled = b })))
          ↔ HealthAccepted (record c { enabled = b }))
        (sym off) (λ _ on. cc, λ _. tt)
]

abbrev pub ErrorHandlingAccepted : ErrorHandlingConfig → Type 0
ErrorHandlingAccepted c =
    c.dead_letter_topic ≢ ""
    → (pos 0 ≤ℤ c.max_retry_attempts)
      × (pos 0 ≤ℤ c.retry_backoff_base)
      × (pos 0 ≤ℤ c.retry_backoff_max)
      × (or_default c.retry_backoff_base 1000000000 ≤ℤ or_default c.retry_backoff_max 30000000000)

below_iff : (a b : ℤ) → pos 0 <ℤ b → (ltb_ℤ b a && ltb_ℤ (pos 0) b ≡ false) ↔ (a ≤ℤ b)
below_iff a b h = ground arith

-- A base and a limit of a backoff, which default to 1 s and 30 s.
abbrev pub BackoffAccepted : ℤ → ℤ → Type 0
BackoffAccepted a b =
    (pos 0 ≤ℤ a) × (pos 0 ≤ℤ b) × (or_default a 1000000000 ≤ℤ or_default b 30000000000)

pub backoff_iff :
    (a b : ℤ)
    → ((ltb_ℤ (or_default a 1000000000) (pos 0) ≡ false)
        × (ltb_ℤ (or_default b 30000000000) (pos 0) ≡ false)
        × (ltb_ℤ (or_default b 30000000000) (or_default a 1000000000)
              && ltb_ℤ (pos 0) (or_default b 30000000000)
            ≡ false))
      ↔ BackoffAccepted a b
backoff_iff a b = (
  λ (base, limit, order).
      let pb = (non_negative_iff b 30000000000).0 limit in
      (
        (non_negative_iff a 1000000000).0 base,
        pb,
        (below_iff (or_default a 1000000000) (or_default b 30000000000)
              (default_positive b 30000000000 (omega arith) pb)).0
            order,
      ),
  λ (base, limit, order). (
    (non_negative_iff a 1000000000).1 base,
    (non_negative_iff b 30000000000).1 limit,
    (below_iff (or_default a 1000000000) (or_default b 30000000000)
          (default_positive b 30000000000 (omega arith) limit)).1
        order,
  ),
)

pub error_handling_accepted :
    (side : String) (c : ErrorHandlingConfig)
    → Passes (error_handling_checks side (error_handling_defaults c)) ↔ ErrorHandlingAccepted c
unfolding error_handling_checks error_handling_defaults
error_handling_accepted side c = elim (Bool-cases (str_eq c.dead_letter_topic "")) [
  | inl missing ↦
      rw (missing, missing)
        (λ _ there. absurd (there ((eq_iff c.dead_letter_topic "").0 missing)), λ _. tt)
  | inr there ↦
      rw (there, there)
        (
          λ (retries, (base, (limit, (order, _)))). λ _.
              let (b, l, o) =
                (backoff_iff c.retry_backoff_base c.retry_backoff_max).0 (base, limit, order) in
              ((non_negative_iff c.max_retry_attempts 3).0 retries, b, l, o),
          λ accepted.
              let (retries, b, l, o) =
                accepted (λ e. cc (there, (eq_iff c.dead_letter_topic "").1 e)) in
              let (base, limit, order) =
                (backoff_iff c.retry_backoff_base c.retry_backoff_max).1 (b, l, o) in
              ((non_negative_iff c.max_retry_attempts 3).1 retries, (base, (limit, (order, tt)))),
        )
]
