-- ===== src/Outbox/Publisher/Filter.antt =====
-- What filterPublishedEvents drops (sdk/pkg/outbox/publisher.go).
use jxt_core.Base.{
  String, str_eq, eq_iff, inl, inr, ◌≡◌, sym, ◌≢◌, true, not, ◌&&◌, List, [], ◌∷◌, arith,
  Bool-cases, is_empty,
}
use mathlib.Core.List.{Memᴰ}
use jxt_core.Outbox.Event.{OutboxEvent}
use jxt_core.Outbox.Repository.{ok}
use jxt_core.Outbox.Publisher.Defs.{OutboxPublisher, PublisherWorld}
use jxt_core.Outbox.Publisher.Batch.{contains, key_set, drop_published, filter_published_events}

-- `rs` is `es` without the events that `P` marks, in the same order and with every repetition.
pub data Without (P : OutboxEvent → Type 0) : List OutboxEvent → List OutboxEvent → Type 0 where
  stop : Without P [] []
  drop :
      {e : OutboxEvent} {es rs : List OutboxEvent} → P e → Without P es rs → Without P (e ∷ es) rs
  keep :
      {e : OutboxEvent} {es rs : List OutboxEvent}
      → ¬ (P e)
      → Without P es rs
      → Without P (e ∷ es) (e ∷ rs)

-- The event has a key, and it is one of the published keys.
abbrev pub HasKeyIn : List String → OutboxEvent → Type 0
HasKeyIn keys e = (e.idempotency_key ≢ "") × Memᴰ e.idempotency_key keys

contains_sound : (k : String) (ks : List String) → contains k ks ≡ true → Memᴰ k ks
unfolding contains
contains_sound k [] h = cc
contains_sound k (j ∷ js) h = elim (Bool-cases (str_eq j k)) [
  | inl same ↦ Memᴰ.head (sym ((eq_iff j k).0 same))
  | inr other ↦ Memᴰ.tail (contains_sound k js (rw other at h))
]

contains_complete : (k : String) (ks : List String) → Memᴰ k ks → contains k ks ≡ true
unfolding contains
contains_complete k [] m = elim m [ ]
contains_complete k (j ∷ js) (Memᴰ.head e) = ground (arith, eq_iff j k)
contains_complete k (j ∷ js) (Memᴰ.tail m) = ground (arith, contains_complete k js m)

mem-key_set :
    (es : List OutboxEvent) (e : OutboxEvent)
    → Memᴰ e es
    → e.idempotency_key ≢ ""
    → contains e.idempotency_key (key_set es) ≡ true
unfolding key_set contains
mem-key_set [] e m h = elim m [ ]
mem-key_set (x ∷ xs) e (Memᴰ.head same) h =
    ground (arith, eq_iff e.idempotency_key "", eq_iff e.idempotency_key e.idempotency_key)
mem-key_set (x ∷ xs) e (Memᴰ.tail m) h =
    ground (arith, mem-key_set xs e m h, eq_iff x.idempotency_key e.idempotency_key)

drop_published-Without :
    (keys : List String) (es : List OutboxEvent)
    → Without (HasKeyIn keys) es (drop_published keys es)
unfolding drop_published
drop_published-Without keys [] = stop
drop_published-Without keys (e ∷ es) =
    elim (Bool-cases (not (str_eq e.idempotency_key "") && contains e.idempotency_key keys)) [
      | inl yes' ↦ rw yes' (
          drop
            (
              ground (arith, eq_iff e.idempotency_key ""),
              contains_sound e.idempotency_key keys (ground arith),
            )
            (drop_published-Without keys es))
      | inr no' ↦ rw no' (
          keep
            (λ h. ground (
              arith,
              h.0,
              eq_iff e.idempotency_key "",
              contains_complete e.idempotency_key keys h.1,
            ))
            (drop_published-Without keys es))
    ]

key_set-nil :
    (e : OutboxEvent) (es : List OutboxEvent)
    → is_empty (key_set (e ∷ es)) ≡ true
    → (e.idempotency_key ≡ "") × (is_empty (key_set es) ≡ true)
unfolding key_set contains
key_set-nil e es h = elim (Bool-cases (is_empty (key_set es))) [
  | inl empty ↦ (ground (arith, eq_iff e.idempotency_key ""), empty)
  | inr full ↦ absurd (ground (arith))
]

Without-keyless :
    (keys : List String) (es : List OutboxEvent)
    → is_empty (key_set es) ≡ true
    → Without (HasKeyIn keys) es es
Without-keyless keys [] h = stop
Without-keyless keys (e ∷ es) h =
    let (blank, rest) = key_set-nil e es h in keep (λ k. k.0 blank) (Without-keyless keys es rest)

module _ (p : OutboxPublisher) where
  -- When the repository answers the batched lookup of the batch's keys, filterPublishedEvents
  -- returns the events that have no key or whose key is not in the answer, in their order and with
  -- every repetition; it drops all others. (With no key in the batch no lookup is made, and nothing
  -- is dropped.)
  pub filter_published_events-Without :
      (es : List OutboxEvent) (w : PublisherWorld p) (keys : List String)
      → (p.repo.find_published_by_idempotency_keys (key_set es) w.store).0 ≡ ok keys
      → (rs : List OutboxEvent) × ((filter_published_events p es w).0 ≡ ok rs)
        × Without (HasKeyIn keys) es rs
  unfolding filter_published_events
  filter_published_events-Without es w keys h = elim (Bool-cases (is_empty (key_set es))) [
    | inl empty ↦ (es, rw empty, Without-keyless keys es empty)
    | inr full ↦ (drop_published keys es, ground arith, drop_published-Without keys es)
  ]
