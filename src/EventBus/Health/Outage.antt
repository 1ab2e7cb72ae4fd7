-- ===== src/EventBus/Health/Outage.antt =====
-- The alerts of an outage: messages that fail to come (sdk/pkg/eventbus/health_check_subscriber.go).
use jxt_core.Base.{
  ℕ, ◌/◌, leb, if◌then◌else◌, zero, suc, ℤ, pos, sub_ℕ, ltb_ℤ, String, ◌≡◌, true, some, List, [],
  ◌∷◌, map,
}
use jxt_core.EventBus.Health.Defs.{
  HealthCheckConfig, HealthCheckAlert, HealthCheckSubscriber, severity_of, HealthEvent, tick_at,
}

-- Ticks of the monitor at these times.
abbrev pub ticks : List ℕ → List HealthEvent
ticks [] = []
ticks (t ∷ ts) = tick_at t ∷ ticks ts

-- The levels of the alerts of the first, second, … miss, the latest first, before those of `rest`.
abbrev pub levels : HealthCheckConfig → ℕ → ℕ → List String → List String
levels c missed zero rest = rest
levels c missed (suc n) rest = levels c (suc missed) n (severity_of c (pos (suc missed)) ∷ rest)

-- The level of the n-th miss for a threshold.
abbrev pub level_at : ℕ → ℕ → String
level_at threshold n =
    if leb threshold n then "critical" else if leb (threshold / 2) n then "error" else "warning"

-- The levels of n misses after some others, the latest first, before those of `rest`.
abbrev pub levels_at : ℕ → ℕ → ℕ → List String → List String
levels_at threshold missed zero rest = rest
levels_at threshold missed (suc n) rest =
    levels_at threshold (suc missed) n (level_at threshold (suc missed) ∷ rest)

abbrev pub level_of : HealthCheckAlert → String
level_of a = a.severity

abbrev pub levels_of : HealthCheckSubscriber → List String
levels_of s = map level_of s.alerts

-- A tick more than the interval after the last message.
abbrev pub IsLate : HealthCheckConfig → ℕ → ℕ → Type 0
IsLate c last now = ltb_ℤ c.interval (sub_ℕ now last) ≡ true

module _ (show_duration : ℤ → String) where
  -- The state after some misses.
  abbrev Missing : HealthCheckSubscriber → ℕ → HealthCheckConfig → ℕ → List String → Type 0
  Missing s last c missed alerted =
      (s.last_message_time ≡ some last)
      × (s.config ≡ c)
      × (s.consecutive_misses ≡ pos missed)
      × (levels_of s ≡ alerted)
