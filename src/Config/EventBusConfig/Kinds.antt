-- ===== src/Config/EventBusConfig/Kinds.antt =====
-- Which settings of Kafka and NATS Validate accepts after SetDefaults (sdk/config/eventbus.go).
use jxt_core.Base.{
  ℤ, pos, negsuc, ltb_ℤ, ◌≤ℤ◌, String, str_eq, eq_iff, true, false, not, ◌&&◌, ◌||◌, List, [], ◌∷◌,
  is_empty, ◌≡◌, ◌≢◌, ◌↔◌, ◌⊎◌, refl, arith, Bool-cases, inl, inr,
}
use jxt_core.Config.EventBusConfig.Structs.{KafkaConfig}
use jxt_core.Config.EventBusConfig.Defaults.{or_default, or_text, set_kafka_defaults}
use jxt_core.Config.EventBusConfig.Rules.{is_one_of}
use jxt_core.Config.EventBusConfig.Checks.{validate_kafka_config}
use jxt_core.Config.EventBusConfig.Thresholds.{Passes, non_negative_iff}
use jxt_core.Config.EventBusConfig.Parts.{OneOf, OneOf-iff}

-- A text that is empty or one of these.
abbrev pub OneOrNone : String → List String → Type 0
OneOrNone s names = (s ≡ "") ⊎ OneOf s names

pub supported_iff :
    (s d : String) (names : List String)
    → is_one_of d names ≡ true
    → (not (str_eq (or_text s d) "") && not (is_one_of (or_text s d) names) ≡ false)
      ↔ OneOrNone s names
supported_iff s d names h = elim (Bool-cases (str_eq s "")) [
  | inl missing ↦ rw missing (λ _. inl ((eq_iff s "").0 missing), λ _. ground (arith, h))
  | inr there ↦
      rw (there, there)
        (
          λ k. inr ((OneOf-iff s names).0 (ground (arith, k))),
          λ one. ground (arith, one, OneOf-iff s names, eq_iff s "", there),
        )
]

pub record KafkaAccepted (c : KafkaConfig) : Type 0 where
  pub some_broker : c.brokers ≢ []
  pub acks : (negsuc 0 ≤ℤ c.producer.required_acks) × (c.producer.required_acks ≤ℤ pos 1)
  pub flush_frequency : pos 0 ≤ℤ c.producer.flush_frequency
  pub flush_messages : pos 0 ≤ℤ c.producer.flush_messages
  pub timeout : pos 0 ≤ℤ c.producer.timeout
  pub group : c.consumer.group_id ≢ ""
  pub reset : OneOrNone c.consumer.auto_offset_reset ("earliest" ∷ "latest" ∷ "none" ∷ [])
  pub session : pos 0 ≤ℤ c.consumer.session_timeout
  pub heartbeat : pos 0 ≤ℤ c.consumer.heartbeat_interval

pub is_empty_iff : (xs : List String) → (is_empty xs ≡ false) ↔ (xs ≢ [])
is_empty_iff [] = (λ h. cc, λ h. absurd (h refl))
is_empty_iff (x ∷ xs) = (λ h. λ e. cc, λ h. refl)

acks_iff :
    (n : ℤ)
    → (ltb_ℤ (or_default n 1) (negsuc 0) || ltb_ℤ (pos 1) (or_default n 1) ≡ false)
      ↔ ((negsuc 0 ≤ℤ n) × (n ≤ℤ pos 1))
acks_iff (pos n) = ground arith
acks_iff (negsuc n) = ground arith

pub ne_iff : (s : String) → (str_eq s "" ≡ false) ↔ (s ≢ "")
ne_iff s = ground (arith, eq_iff s "")

pub kafka_accepted :
    (c : KafkaConfig) → Passes (validate_kafka_config (set_kafka_defaults c)) ↔ KafkaAccepted c
unfolding validate_kafka_config set_kafka_defaults
kafka_accepted c =
    let (resets, none_left) =
      supported_iff c.consumer.auto_offset_reset "latest" ("earliest" ∷ "latest" ∷ "none" ∷ [])
        refl in
    (
      λ (
        brokers,
        (acks, (frequency, (messages, (timeout, (group, (reset, (session, (heartbeat, _)))))))),
      ).
          record {
            some_broker = (is_empty_iff c.brokers).0 brokers;
            acks = (acks_iff c.producer.required_acks).0 acks;
            flush_frequency = (non_negative_iff c.producer.flush_frequency 500000000).0 frequency;
            flush_messages = (non_negative_iff c.producer.flush_messages 100).0 messages;
            timeout = (non_negative_iff c.producer.timeout 10000000000).0 timeout;
            group = (ne_iff c.consumer.group_id).0 group;
            reset = resets reset;
            session = (non_negative_iff c.consumer.session_timeout 30000000000).0 session;
            heartbeat = (non_negative_iff c.consumer.heartbeat_interval 3000000000).0 heartbeat;
          },
      λ r. (
        (is_empty_iff c.brokers).1 r.some_broker,
        (
          (acks_iff c.producer.required_acks).1 r.acks,
          (
            (non_negative_iff c.producer.flush_frequency 500000000).1 r.flush_frequency,
            (
              (non_negative_iff c.producer.flush_messages 100).1 r.flush_messages,
              (
                (non_negative_iff c.producer.timeout 10000000000).1 r.timeout,
                (
                  (ne_iff c.consumer.group_id).1 r.group,
                  (
                    none_left r.reset,
                    (
                      (non_negative_iff c.consumer.session_timeout 30000000000).1 r.session,
                      (
                        (non_negative_iff c.consumer.heartbeat_interval 3000000000).1 r.heartbeat,
                        tt,
                      ),
                    ),
                  ),
                ),
              ),
            ),
          ),
        ),
      ),
    )
