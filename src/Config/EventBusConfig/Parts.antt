-- ===== src/Config/EventBusConfig/Parts.antt =====
-- Which settings Validate accepts after SetDefaults, part by part (sdk/config/eventbus.go).
use jxt_core.Base.{
  pos, ◌≤ℤ◌, String, str_eq, eq_iff, Bool, true, false, not, List, [], ◌∷◌, ◌≡◌, ◌↔◌, ◌⊎◌, refl,
  arith, Bool-cases, inl, inr,
}
use jxt_core.Config.EventBusConfig.Structs.{
  Floats, IsFloats, SecurityConfig, SubscriberBacklogDetectionConfig, MemoryConfig, RateLimitConfig,
  PublisherBacklogDetectionConfig,
}
use jxt_core.Config.EventBusConfig.Defaults.{
  or_thousand, subscriber_backlog_defaults, set_memory_defaults, rate_limit_defaults,
  publisher_backlog_defaults,
}
use jxt_core.Config.EventBusConfig.Rules.{is_one_of}
use jxt_core.Config.EventBusConfig.Checks.{
  protocols, subscriber_backlog_checks, security_checks, validate_memory_config, rate_limit_checks,
  publisher_backlog_checks,
}
use jxt_core.Config.EventBusConfig.Thresholds.{Passes, positive_iff, non_negative_iff}

abbrev pub SubscriberBacklogAccepted : SubscriberBacklogDetectionConfig → Type 0
SubscriberBacklogAccepted c =
    c.enabled ≡ true
    → (pos 0 ≤ℤ c.max_lag_threshold) × (pos 0 ≤ℤ c.max_time_threshold) × (pos 0 ≤ℤ c.check_interval)

pub subscriber_backlog_accepted :
    (c : SubscriberBacklogDetectionConfig)
    → Passes (subscriber_backlog_checks (subscriber_backlog_defaults c))
      ↔ SubscriberBacklogAccepted c
unfolding subscriber_backlog_checks subscriber_backlog_defaults
subscriber_backlog_accepted c = ground (
  arith,
  positive_iff c.max_lag_threshold 10000,
  positive_iff c.max_time_threshold 300000000000,
  positive_iff c.check_interval 30000000000,
)

abbrev pub MemoryAccepted : MemoryConfig → Type 0
MemoryAccepted c = (pos 0 ≤ℤ c.max_channel_size) × (pos 0 ≤ℤ c.buffer_size)

pub memory_accepted :
    (c : MemoryConfig) → Passes (validate_memory_config (set_memory_defaults c)) ↔ MemoryAccepted c
unfolding validate_memory_config set_memory_defaults
memory_accepted c =
    ground (arith, non_negative_iff c.max_channel_size 1000, non_negative_iff c.buffer_size 100)

abbrev pub OneOf : String → List String → Type 0
OneOf s [] = ⊥
OneOf s (t ∷ ts) = (s ≡ t) ⊎ OneOf s ts

pub OneOf-iff : (s : String) (ts : List String) → (is_one_of s ts ≡ true) ↔ OneOf s ts
OneOf-iff s [] = (λ h. cc, λ h. absurd h)
OneOf-iff s (t ∷ ts) = ground (arith, eq_iff s t, OneOf-iff s ts)

abbrev pub SecurityAccepted : SecurityConfig → Type 0
SecurityAccepted c = c.enabled ≡ true → OneOf c.protocol protocols

protocol_nonempty : (p : String) → OneOf p protocols → str_eq p "" ≡ false
protocol_nonempty p (inl e) = rw e refl
protocol_nonempty p (inr (inl e)) = rw e refl
protocol_nonempty p (inr (inr (inl e))) = rw e refl
protocol_nonempty p (inr (inr (inr h))) = elim h [ ]

not-eq-false : (b : Bool) → (not b ≡ false) ↔ (b ≡ true)
not-eq-false b = ground arith

pub security_accepted : (c : SecurityConfig) → Passes (security_checks c) ↔ SecurityAccepted c
unfolding security_checks
security_accepted c = elim (Bool-cases c.enabled) [
  | inl on ↦ simp on (
    λ (_, (known, _)). λ _. (OneOf-iff c.protocol protocols).0 ((not-eq-false _).0 known),
    λ accepted.
        let one = accepted refl in
        (
          protocol_nonempty c.protocol one,
          ((not-eq-false _).1 ((OneOf-iff c.protocol protocols).1 one), tt),
        ),
  )
  | inr off ↦ simp off (λ _ on. cc, λ _. tt)
]

module _ (fl : Floats) (laws : IsFloats fl) where
  open fl use {Float, is_zero, is_not_positive, thousand}

  -- A rate that is 0 or positive.
  abbrev pub IsRate : Float → Type 0
  IsRate f = (is_zero f ≡ true) ⊎ (is_not_positive f ≡ false)

  IsRate-iff : (f : Float) → (is_not_positive (or_thousand fl f) ≡ false) ↔ IsRate f
  IsRate-iff f = elim (Bool-cases (is_zero f)) [
    | inl zero_rate ↦ rw zero_rate (λ _. inl refl, λ _. laws.thousand_positive)
    | inr other ↦ rw other (λ h. inr h, λ h. ground (arith, h, other))
  ]

  abbrev pub RateLimitAccepted : RateLimitConfig fl → Type 0
  RateLimitAccepted c = c.enabled ≡ true → IsRate c.rate_per_second × (pos 0 ≤ℤ c.burst_size)

  pub rate_limit_accepted :
      (side : String) (c : RateLimitConfig fl)
      → Passes (rate_limit_checks fl side (rate_limit_defaults fl c)) ↔ RateLimitAccepted c
  unfolding rate_limit_checks rate_limit_defaults
  rate_limit_accepted side c =
      ground (arith, IsRate-iff c.rate_per_second, positive_iff c.burst_size 100)

  abbrev pub PublisherBacklogAccepted : PublisherBacklogDetectionConfig fl → Type 0
  PublisherBacklogAccepted c =
      c.enabled ≡ true
      → (pos 0 ≤ℤ c.max_queue_depth)
        × (pos 0 ≤ℤ c.max_publish_latency)
        × IsRate c.rate_threshold
        × (pos 0 ≤ℤ c.check_interval)

  pub publisher_backlog_accepted :
      (c : PublisherBacklogDetectionConfig fl)
      → Passes (publisher_backlog_checks fl (publisher_backlog_defaults fl c))
        ↔ PublisherBacklogAccepted c
  unfolding publisher_backlog_checks publisher_backlog_defaults
  publisher_backlog_accepted c = ground (
    arith,
    IsRate-iff c.rate_threshold,
    positive_iff c.max_queue_depth 10000,
    positive_iff c.max_publish_latency 1000000000,
    positive_iff c.check_interval 10000000000,
  )
