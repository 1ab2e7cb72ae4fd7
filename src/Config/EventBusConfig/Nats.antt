-- ===== src/Config/EventBusConfig/Nats.antt =====
-- Which settings of NATS Validate accepts after SetDefaults (sdk/config/eventbus.go).
use mathlib.Core.Path.{subst}
use jxt_core.Base.{
  ℤ, pos, negsuc, ltb_ℤ, ◌≤ℤ◌, eq_iff, true, false, [], ◌≡◌, ◌≢◌, ◌↔◌, ◌⊎◌, refl, sym, arith,
  Bool-cases, inl, inr,
}
use jxt_core.Config.EventBusConfig.Structs.{JetStreamConfig, NatsSecurityConfig, NatsConfig}
use jxt_core.Config.EventBusConfig.Defaults.{
  or_default, stream_defaults, nats_consumer_defaults, jet_stream_defaults, set_nats_defaults,
}
use jxt_core.Config.EventBusConfig.NatsChecks.{
  stream_checks, nats_consumer_checks, jet_stream_checks, has_auth, nats_security_checks,
  validate_nats_config,
}
use jxt_core.Config.EventBusConfig.Thresholds.{Passes, Passes-append, non_negative_iff}
use jxt_core.Config.EventBusConfig.Kinds.{is_empty_iff}
use jxt_core.Config.EventBusConfig.Streams.{
  StreamAccepted, stream_accepted, ConsumerAccepted, consumer_accepted,
}

pub record JetStreamOn (c : JetStreamConfig) : Type 0 where
  pub publish_timeout : pos 0 ≤ℤ c.publish_timeout
  pub ack_wait : pos 0 ≤ℤ c.ack_wait
  pub max_deliver : pos 0 ≤ℤ c.max_deliver
  pub stream : StreamAccepted c.stream
  pub consumer : ConsumerAccepted c.consumer

abbrev pub JetStreamAccepted : JetStreamConfig → Type 0
JetStreamAccepted c = c.enabled ≡ true → JetStreamOn c

jet_stream_on :
    (c : JetStreamConfig)
    → Passes (jet_stream_checks (jet_stream_defaults (record c { enabled = true }))) ↔ JetStreamOn c
unfolding jet_stream_checks jet_stream_defaults
jet_stream_on c =
    let timeout = non_negative_iff c.publish_timeout 10000000000 in
    let wait = non_negative_iff c.ack_wait 30000000000 in
    let most = non_negative_iff c.max_deliver 5 in
    let parts =
      Passes-append (stream_checks (stream_defaults c.stream))
        (nats_consumer_checks (nats_consumer_defaults c.consumer)) in
    (
      λ (t, (w, (m, rest))).
          let (s, n) = parts.0 rest in
          record {
            publish_timeout = timeout.0 t;
            ack_wait = wait.0 w;
            max_deliver = most.0 m;
            stream = (stream_accepted c.stream).0 s;
            consumer = (consumer_accepted c.consumer).0 n;
          },
      λ r. (
        timeout.1 r.publish_timeout,
        (
          wait.1 r.ack_wait,
          (
            most.1 r.max_deliver,
            parts.1 (
              (stream_accepted c.stream).1 r.stream,
              (consumer_accepted c.consumer).1 r.consumer,
            ),
          ),
        ),
      ),
    )

jet_stream_accepted :
    (c : JetStreamConfig) → Passes (jet_stream_checks (jet_stream_defaults c)) ↔ JetStreamAccepted c
unfolding jet_stream_checks jet_stream_defaults
jet_stream_accepted c = elim (Bool-cases c.enabled) [
  | inl on ↦
      subst
        (λ b.
          Passes (jet_stream_checks (jet_stream_defaults (record c { enabled = b })))
          ↔ JetStreamAccepted (record c { enabled = b }))
        (sym on)
        (
          λ h. λ _. (jet_stream_on (record c { enabled = true })).0 h,
          λ h. (jet_stream_on (record c { enabled = true })).1 (h refl),
        )
  | inr off ↦
      subst
        (λ b.
          Passes (jet_stream_checks (jet_stream_defaults (record c { enabled = b })))
          ↔ JetStreamAccepted (record c { enabled = b }))
        (sym off) (λ _ on. cc, λ _. tt)
]

-- A way to authenticate is given.
abbrev pub HasAuth : NatsSecurityConfig → Type 0
HasAuth c =
    (c.token ≢ "")
    ⊎ (((c.username ≢ "") × (c.password ≢ "")) ⊎ ((c.nkey_file ≢ "") ⊎ (c.cred_file ≢ "")))

abbrev pub NatsSecurityAccepted : NatsSecurityConfig → Type 0
NatsSecurityAccepted c = c.enabled ≡ true → HasAuth c

nats_security_accepted :
    (c : NatsSecurityConfig) → Passes (nats_security_checks c) ↔ NatsSecurityAccepted c
unfolding nats_security_checks has_auth
nats_security_accepted c = ground (
  arith,
  eq_iff c.token "",
  eq_iff c.username "",
  eq_iff c.password "",
  eq_iff c.nkey_file "",
  eq_iff c.cred_file "",
)

pub record NatsAccepted (c : NatsConfig) : Type 0 where
  pub some_url : c.urls ≢ []
  pub reconnects : negsuc 0 ≤ℤ c.max_reconnects
  pub wait : pos 0 ≤ℤ c.reconnect_wait
  pub timeout : pos 0 ≤ℤ c.connection_timeout
  pub jet_stream : JetStreamAccepted c.jet_stream
  pub security : NatsSecurityAccepted c.security

reconnects_iff : (n : ℤ) → (ltb_ℤ (or_default n 10) (negsuc 0) ≡ false) ↔ (negsuc 0 ≤ℤ n)
reconnects_iff (pos n) = ground arith
reconnects_iff (negsuc n) = ground arith

pub nats_accepted :
    (c : NatsConfig) → Passes (validate_nats_config (set_nats_defaults c)) ↔ NatsAccepted c
unfolding validate_nats_config set_nats_defaults
nats_accepted c =
    let wait = non_negative_iff c.reconnect_wait 2000000000 in
    let timeout = non_negative_iff c.connection_timeout 10000000000 in
    let parts =
      Passes-append (jet_stream_checks (jet_stream_defaults c.jet_stream))
        (nats_security_checks c.security) in
    (
      λ (u, (r, (w, (t, rest)))).
          let (j, s) = parts.0 rest in
          record {
            some_url = (is_empty_iff c.urls).0 u;
            reconnects = (reconnects_iff c.max_reconnects).0 r;
            wait = wait.0 w;
            timeout = timeout.0 t;
            jet_stream = (jet_stream_accepted c.jet_stream).0 j;
            security = (nats_security_accepted c.security).0 s;
          },
      λ r. (
        (is_empty_iff c.urls).1 r.some_url,
        (
          (reconnects_iff c.max_reconnects).1 r.reconnects,
          (
            wait.1 r.wait,
            (
              timeout.1 r.timeout,
              parts.1 (
                (jet_stream_accepted c.jet_stream).1 r.jet_stream,
                (nats_security_accepted c.security).1 r.security,
              ),
            ),
          ),
        ),
      ),
    )
