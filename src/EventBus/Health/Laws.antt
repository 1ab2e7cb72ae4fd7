-- ===== src/EventBus/Health/Laws.antt =====
-- What the watching of health check messages reports (sdk/pkg/eventbus/health_check_subscriber.go).
use jxt_core.Base.{
  ℕ, ℤ, sub_ℕ, ltb_ℤ, String, str_eq, ◌≡◌, refl, sym, true, false, not, ◌⊎◌, inl, inr, none, List,
  [], ◌∷◌, Bool-cases, Option-cases,
}
use mathlib.Core.Path.{subst}
use jxt_core.EventBus.Health.Defs.{
  HealthCheckConfig, HealthCheckSubscriber, new_health_check_subscriber, int32_incr, half,
  threshold_of, severity_of, trigger_alert, miss, silent_since_start, silent_for,
  check_health_status, is_healthy_now, handle_health_check_message, HealthEvent, message_at,
  tick_at, on_health_event, watch_health,
}

severity_of-critical :
    (c : HealthCheckConfig) (misses : ℤ)
    → not (str_eq (severity_of c misses) "critical") ≡ ltb_ℤ misses (threshold_of c)
unfolding severity_of
severity_of-critical c misses = elim (Bool-cases (ltb_ℤ misses (threshold_of c))) [
  | inr grave ↦ rw (grave, severity_of) refl
  | inl light ↦ elim (Bool-cases (ltb_ℤ misses (half (threshold_of c)))) [
    | inl small ↦ rw (light, severity_of, small) refl
    | inr large ↦ rw (light, severity_of, large) refl
  ]
]

-- The statistics agree with IsHealthy.
abbrev pub IsSettled : HealthCheckSubscriber → Type 0
IsSettled s = s.stats.is_healthy ≡ is_healthy_now s

-- Nothing was received or reported yet.
abbrev pub IsSilent : HealthCheckSubscriber → Type 0
IsSilent s = (s.last_message_time ≡ none) × (s.alerts ≡ [])

module _ (show_duration : ℤ → String) where
  miss-IsSettled :
      (text : ℤ → String) (now : ℕ) (s : HealthCheckSubscriber) → IsSettled (miss text now s)
  unfolding miss trigger_alert
  miss-IsSettled text now s = severity_of-critical s.config (int32_incr s.consecutive_misses)

  -- A check does nothing, or counts a miss.
  pub check_health_status-miss :
      (now : ℕ) (s : HealthCheckSubscriber)
      → (check_health_status show_duration now s ≡ s)
        ⊎ ((text : ℤ → String) × (check_health_status show_duration now s ≡ miss text now s))
  unfolding check_health_status
  check_health_status-miss now s = elim (Option-cases s.last_message_time) [
    | inl never ↦ elim (Bool-cases (ltb_ℤ s.config.interval (sub_ℕ now s.stats.start_time))) [
      | inl late ↦ inr (silent_since_start, simp (never, check_health_status, late) refl)
      | inr early ↦ inl (simp (never, check_health_status, early) refl)
    ]
    | inr (last, seen) ↦ elim (Bool-cases (ltb_ℤ s.config.interval (sub_ℕ now last))) [
      | inl late ↦
          inr
            (silent_for show_duration (sub_ℕ now last), simp (seen, check_health_status, late) refl)
      | inr early ↦ inl (simp (seen, check_health_status, early) refl)
    ]
  ]

  on_health_event-IsSettled :
      (e : HealthEvent) (s : HealthCheckSubscriber)
      → (on_health_event show_duration e s ≡ s) ⊎ IsSettled (on_health_event show_duration e s)
  unfolding on_health_event handle_health_check_message
  on_health_event-IsSettled (message_at false now) s = inl refl
  on_health_event-IsSettled (message_at true now) s = inr refl
  on_health_event-IsSettled (tick_at now) s = elim (check_health_status-miss now s) [
    | inl same ↦ inl same
    | inr (text, missed) ↦ inr (subst IsSettled (sym missed) (miss-IsSettled text now s))
  ]

  watch_health_agrees :
      (es : List HealthEvent) (s : HealthCheckSubscriber)
      → IsSettled s ⊎ IsSilent s
      → IsSettled (watch_health show_duration es s) ⊎ IsSilent (watch_health show_duration es s)
  unfolding watch_health
  watch_health_agrees [] s h = h
  watch_health_agrees (e ∷ es) s h =
      watch_health_agrees es _ (elim (on_health_event-IsSettled e s) [
        | inl same ↦ subst (λ x. IsSettled x ⊎ IsSilent x) (sym same) h
        | inr settled ↦ inl settled
      ])

  -- After any messages and ticks, the health that GetStats reports is that of IsHealthy, unless no
  -- message was received and no alert was made so far.
  pub watch_health-IsSettled :
      (c : HealthCheckConfig) (topic : String) (now : ℕ) (es : List HealthEvent)
      → IsSettled (watch_health show_duration es (new_health_check_subscriber c topic now))
        ⊎ IsSilent (watch_health show_duration es (new_health_check_subscriber c topic now))
  unfolding new_health_check_subscriber
  watch_health-IsSettled c topic now es = watch_health_agrees es _ (inr (refl, refl))
