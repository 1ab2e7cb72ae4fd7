-- ===== src/Config/EventBusConfig/Cases.antt =====
-- Validate after SetDefaults for each type of event bus (sdk/config/eventbus.go).
use jxt_core.Base.{
  String, str_eq, eq_iff, false, none, ◌++◌, ◌≡◌, ◌≢◌, ◌↔◌, ◌⊎◌, refl, sym, ◌∙◌, arith,
}
use jxt_core.Config.EventBusConfig.Structs.{Floats, IsFloats, EventBusConfig}
use jxt_core.Config.EventBusConfig.Defaults.{
  health_check_defaults, publisher_defaults, subscriber_defaults, kind_defaults,
  monitoring_defaults,
}
use jxt_core.Config.EventBusConfig.Checks.{
  health_check_checks, security_checks, publisher_checks, subscriber_checks, kind_checks,
  basic_checks, validate,
}
use jxt_core.Config.EventBusConfig.Thresholds.{
  Passes, first_error_iff, Passes-append, HealthAccepted, health_check_accepted,
}
use jxt_core.Config.EventBusConfig.Parts.{
  MemoryAccepted, memory_accepted, SecurityAccepted, security_accepted,
}
use jxt_core.Config.EventBusConfig.Kinds.{KafkaAccepted, kafka_accepted, ne_iff}
use jxt_core.Config.EventBusConfig.Nats.{NatsAccepted, nats_accepted}
use jxt_core.Config.EventBusConfig.Sides.{
  PublisherAccepted, publisher_accepted, SubscriberAccepted, subscriber_accepted,
}

module _ (fl : Floats) (laws : IsFloats fl) where
  -- What every type of event bus asks for.
  pub record CommonAccepted (c : EventBusConfig fl) : Type 0 where
    pub named : c.service_name ≢ ""
    pub health : HealthAccepted c.health_check
    pub publisher : PublisherAccepted fl laws c.publisher
    pub subscriber : SubscriberAccepted fl laws c.subscriber
    pub security : SecurityAccepted c.security

  -- The settings of the type, where no type stands for memory.
  abbrev pub KindAccepted : EventBusConfig fl → Type 0
  KindAccepted c =
      ((c.kind ≡ "kafka") × KafkaAccepted c.kafka)
      ⊎ (((c.kind ≡ "nats") × NatsAccepted c.nats)
          ⊎ (((c.kind ≡ "memory") ⊎ (c.kind ≡ "")) × MemoryAccepted c.memory))

  pub clash : (s t u : String) → s ≡ t → s ≡ u → str_eq t u ≡ false → ⊥
  clash s t u e f h = cc (h, (eq_iff t u).1 (sym e ∙ f))

  -- SetDefaults once the type is known.
  abbrev pub with_kind : String → EventBusConfig fl → EventBusConfig fl
  with_kind k c = kind_defaults fl (record c {
    kind = k;
    health_check = health_check_defaults c.health_check;
    publisher = publisher_defaults fl c.publisher;
    subscriber = subscriber_defaults fl c.subscriber;
    monitoring = monitoring_defaults c.monitoring;
  })

  -- The checks of a configuration, one by one.
  validate_iff :
      (d : EventBusConfig fl)
      → (validate fl d ≡ none) ↔ (
          Passes (basic_checks fl d)
          × Passes (health_check_checks d.health_check)
          × Passes (publisher_checks fl d.publisher)
          × Passes (subscriber_checks fl d.subscriber)
          × Passes (security_checks d.security)
          × Passes (kind_checks fl d))
  unfolding validate
  validate_iff d =
      let h = health_check_checks d.health_check in
      let p = publisher_checks fl d.publisher in
      let s = subscriber_checks fl d.subscriber in
      let y = security_checks d.security in
      let k = kind_checks fl d in
      let b = basic_checks fl d in
      (
        λ e.
            let (basic, rest₁) =
              (Passes-append b (h ++ (p ++ (s ++ (y ++ k))))).0
                ((first_error_iff (b ++ (h ++ (p ++ (s ++ (y ++ k)))))).0 e) in
            let (health, rest₂) = (Passes-append h (p ++ (s ++ (y ++ k)))).0 rest₁ in
            let (publisher, rest₃) = (Passes-append p (s ++ (y ++ k))).0 rest₂ in
            let (subscriber, rest₄) = (Passes-append s (y ++ k)).0 rest₃ in
            let (security, kind) = (Passes-append y k).0 rest₄ in
            (basic, health, publisher, subscriber, security, kind),
        λ (basic, health, publisher, subscriber, security, kind).
            (first_error_iff (b ++ (h ++ (p ++ (s ++ (y ++ k)))))).1 (
              (Passes-append b (h ++ (p ++ (s ++ (y ++ k))))).1 (
                basic,
                (Passes-append h (p ++ (s ++ (y ++ k)))).1 (
                  health,
                  (Passes-append p (s ++ (y ++ k))).1 (
                    publisher,
                    (Passes-append s (y ++ k)).1
                        (subscriber, (Passes-append y k).1 (security, kind)),
                  ),
                ),
              )),
      )

  -- The parts that do not depend on the type.
  common_iff :
      (c : EventBusConfig fl)
      → ((str_eq c.service_name "" ≡ false)
          × Passes (health_check_checks (health_check_defaults c.health_check))
          × Passes (publisher_checks fl (publisher_defaults fl c.publisher))
          × Passes (subscriber_checks fl (subscriber_defaults fl c.subscriber))
          × Passes (security_checks c.security))
        ↔ CommonAccepted c
  common_iff c = (
    λ (n, h, p, s, y). record {
      named = (ne_iff c.service_name).0 n;
      health = (health_check_accepted c.health_check).0 h;
      publisher = (publisher_accepted fl laws c.publisher).0 p;
      subscriber = (subscriber_accepted fl laws c.subscriber).0 s;
      security = (security_accepted c.security).0 y;
    },
    λ r. (
      (ne_iff c.service_name).1 r.named,
      (health_check_accepted c.health_check).1 r.health,
      (publisher_accepted fl laws c.publisher).1 r.publisher,
      (subscriber_accepted fl laws c.subscriber).1 r.subscriber,
      (security_accepted c.security).1 r.security,
    ),
  )

  pub kafka_case :
      (c : EventBusConfig fl)
      → (validate fl (with_kind "kafka" c) ≡ none) ↔ (CommonAccepted c × KafkaAccepted c.kafka)
  unfolding kind_defaults kind_checks basic_checks
  kafka_case c = (
    λ e.
        let ((_, (_, (n, _))), h, p, s, y, k) = (validate_iff (with_kind "kafka" c)).0 e in
        ((common_iff c).0 (n, h, p, s, y), (kafka_accepted c.kafka).0 k),
    λ (common, own).
        let (n, h, p, s, y) = (common_iff c).1 common in
        (validate_iff (with_kind "kafka" c)).1
          ((refl, (refl, (n, tt))), h, p, s, y, (kafka_accepted c.kafka).1 own),
  )

  pub nats_case :
      (c : EventBusConfig fl)
      → (validate fl (with_kind "nats" c) ≡ none) ↔ (CommonAccepted c × NatsAccepted c.nats)
  unfolding kind_defaults kind_checks basic_checks
  nats_case c = (
    λ e.
        let ((_, (_, (n, _))), h, p, s, y, k) = (validate_iff (with_kind "nats" c)).0 e in
        ((common_iff c).0 (n, h, p, s, y), (nats_accepted c.nats).0 k),
    λ (common, own).
        let (n, h, p, s, y) = (common_iff c).1 common in
        (validate_iff (with_kind "nats" c)).1
          ((refl, (refl, (n, tt))), h, p, s, y, (nats_accepted c.nats).1 own),
  )

  pub memory_case :
      (c : EventBusConfig fl)
      → (validate fl (with_kind "memory" c) ≡ none) ↔ (CommonAccepted c × MemoryAccepted c.memory)
  unfolding kind_defaults kind_checks basic_checks
  memory_case c = (
    λ e.
        let ((_, (_, (n, _))), h, p, s, y, k) = (validate_iff (with_kind "memory" c)).0 e in
        ((common_iff c).0 (n, h, p, s, y), (memory_accepted c.memory).0 k),
    λ (common, own).
        let (n, h, p, s, y) = (common_iff c).1 common in
        (validate_iff (with_kind "memory" c)).1
          ((refl, (refl, (n, tt))), h, p, s, y, (memory_accepted c.memory).1 own),
  )

  pub other_case :
      (c : EventBusConfig fl) (k : String)
      → str_eq k "kafka" ≡ false
      → str_eq k "nats" ≡ false
      → str_eq k "memory" ≡ false
      → validate fl (with_kind k c) ≢ none
  unfolding kind_defaults basic_checks
  other_case c k kafka nats memory e =
      let ((_, (known, _)), _, _, _, _, _) = (validate_iff (with_kind k c)).0 e in
      absurd (ground (arith, known, kafka, nats, memory))
