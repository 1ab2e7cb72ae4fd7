-- ===== src/Config/EventBusConfig/Streams.antt =====
-- Which settings of a stream and its consumer Validate accepts after SetDefaults (sdk/config/eventbus.go).
use jxt_core.Base.{pos, ◌≤ℤ◌, [], ◌∷◌, ◌≢◌, ◌↔◌, refl}
use jxt_core.Config.EventBusConfig.Structs.{StreamConfig, NatsConsumerConfig}
use jxt_core.Config.EventBusConfig.Defaults.{stream_defaults, nats_consumer_defaults}
use jxt_core.Config.EventBusConfig.NatsChecks.{policies, stream_checks, nats_consumer_checks}
use jxt_core.Config.EventBusConfig.Thresholds.{Passes, non_negative_iff}
use jxt_core.Config.EventBusConfig.Kinds.{OneOrNone, supported_iff, is_empty_iff, ne_iff}

pub record StreamAccepted (c : StreamConfig) : Type 0 where
  pub named : c.name ≢ ""
  pub some_subject : c.subjects ≢ []
  pub retention : OneOrNone c.retention ("limits" ∷ "interest" ∷ "workqueue" ∷ [])
  pub storage : OneOrNone c.storage ("file" ∷ "memory" ∷ [])
  pub replicas : pos 0 ≤ℤ c.replicas
  pub max_age : pos 0 ≤ℤ c.max_age
  pub max_bytes : pos 0 ≤ℤ c.max_bytes
  pub max_msgs : pos 0 ≤ℤ c.max_msgs
  pub discard : OneOrNone c.discard ("old" ∷ "new" ∷ [])

pub stream_accepted :
    (c : StreamConfig) → Passes (stream_checks (stream_defaults c)) ↔ StreamAccepted c
unfolding stream_checks stream_defaults
stream_accepted c =
    let retention =
      supported_iff c.retention "limits" ("limits" ∷ "interest" ∷ "workqueue" ∷ []) refl in
    let storage = supported_iff c.storage "file" ("file" ∷ "memory" ∷ []) refl in
    let discard = supported_iff c.discard "old" ("old" ∷ "new" ∷ []) refl in
    let replicas = non_negative_iff c.replicas 1 in
    let age = non_negative_iff c.max_age 86400000000000 in
    let bytes = non_negative_iff c.max_bytes 1073741824 in
    let msgs = non_negative_iff c.max_msgs 1000000 in
    (
      λ (n, (s, (r, (f, (k, (a, (b, (m, (d, _))))))))). record {
        named = (ne_iff c.name).0 n;
        some_subject = (is_empty_iff c.subjects).0 s;
        retention = retention.0 r;
        storage = storage.0 f;
        replicas = replicas.0 k;
        max_age = age.0 a;
        max_bytes = bytes.0 b;
        max_msgs = msgs.0 m;
        discard = discard.0 d;
      },
      λ r. (
        (ne_iff c.name).1 r.named,
        (
          (is_empty_iff c.subjects).1 r.some_subject,
          (
            retention.1 r.retention,
            (
              storage.1 r.storage,
              (
                replicas.1 r.replicas,
                (
                  age.1 r.max_age,
                  (bytes.1 r.max_bytes, (msgs.1 r.max_msgs, (discard.1 r.discard, tt))),
                ),
              ),
            ),
          ),
        ),
      ),
    )

pub record ConsumerAccepted (c : NatsConsumerConfig) : Type 0 where
  pub deliver : OneOrNone c.deliver_policy policies
  pub ack : OneOrNone c.ack_policy ("none" ∷ "all" ∷ "explicit" ∷ [])
  pub replay : OneOrNone c.replay_policy ("instant" ∷ "original" ∷ [])
  pub pending : pos 0 ≤ℤ c.max_ack_pending
  pub waiting : pos 0 ≤ℤ c.max_waiting
  pub max_deliver : pos 0 ≤ℤ c.max_deliver

pub consumer_accepted :
    (c : NatsConsumerConfig)
    → Passes (nats_consumer_checks (nats_consumer_defaults c)) ↔ ConsumerAccepted c
unfolding nats_consumer_checks nats_consumer_defaults
consumer_accepted c =
    let deliver = supported_iff c.deliver_policy "all" policies refl in
    let ack = supported_iff c.ack_policy "explicit" ("none" ∷ "all" ∷ "explicit" ∷ []) refl in
    let replay = supported_iff c.replay_policy "instant" ("instant" ∷ "original" ∷ []) refl in
    let pending = non_negative_iff c.max_ack_pending 1000 in
    let waiting = non_negative_iff c.max_waiting 512 in
    let most = non_negative_iff c.max_deliver 5 in
    (
      λ (d, (a, (r, (p, (w, (m, _)))))). record {
        deliver = deliver.0 d;
        ack = ack.0 a;
        replay = replay.0 r;
        pending = pending.0 p;
        waiting = waiting.0 w;
        max_deliver = most.0 m;
      },
      λ r. (
        deliver.1 r.deliver,
        (
          ack.1 r.ack,
          (
            replay.1 r.replay,
            (pending.1 r.pending, (waiting.1 r.waiting, (most.1 r.max_deliver, tt))),
          ),
        ),
      ),
    )
