-- ===== src/Outbox/Adapter/Laws.antt =====
-- An outbox event on its way through the adapter to a consumer
-- (sdk/pkg/outbox/adapters/eventbus_adapter.go, sdk/pkg/eventbus/envelope.go).
use jxt_core.Base.{
  ℕ, zero, suc, pos, ltb_ℤ, is_empty, String, ◌≡◌, refl, ◌∙◌, true, false, none, List, arith,
  Bool-cases, inl, inr,
}
use jxt_core.Outbox.Event.{OutboxEvent}
use jxt_core.Outbox.Repository.{ok}
use jxt_core.Outbox.Publisher.Defs.{to_envelope}
use jxt_core.EventBus.Envelope.Defs.{
  Bytes, Envelope, Library, IsLibrary, check_id, validate_aggregate_id, is_blank, validate,
  to_bytes, from_bytes, extract_aggregate_id,
}
use jxt_core.EventBus.Envelope.Laws.{to_bytes-valid, extract_aggregate_id-to_bytes}
use jxt_core.Outbox.Adapter.{Adapter, new_adapter, start, close_adapter, to_event_bus_envelope}

-- The event's envelope on the event bus.
abbrev pub bus_envelope : OutboxEvent → Envelope
bus_envelope ev = to_event_bus_envelope (to_envelope ev)

-- The envelope is that of the event.
abbrev pub Carries : OutboxEvent → Envelope → Type 0
Carries ev e =
    (e.event_id ≡ ev.id)
    × (e.aggregate_id ≡ ev.aggregate_id)
    × (e.event_type ≡ ev.event_type)
    × (e.event_version ≡ pos 1)
    × (e.tenant_id ≡ ev.tenant_id)
    × (is_empty e.payload ≡ is_empty ev.payload)

-- What an event must have to be accepted.
abbrev pub IsPublishable : Library → OutboxEvent → Type 0
IsPublishable l ev =
    (is_blank l ev.id ≡ false)
    × (is_blank l ev.event_type ≡ false)
    × (is_empty ev.payload ≡ false)
    × (validate_aggregate_id l ev.aggregate_id ≡ none)

module _ (l : Library) (laws : IsLibrary l) where
  validate-not_blank : (id : String) → validate_aggregate_id l id ≡ none → is_blank l id ≡ false
  unfolding validate_aggregate_id check_id
  validate-not_blank id h = ground (arith, h)

  validate-valid :
      (e : Envelope)
      → is_blank l e.event_id ≡ false
      → is_blank l e.event_type ≡ false
      → ltb_ℤ (pos 0) e.event_version ≡ true
      → is_empty e.payload ≡ false
      → validate_aggregate_id l e.aggregate_id ≡ none
      → validate l e ≡ none
  unfolding validate
  validate-valid e id kind version payload aggregate =
      ground
        (arith, id, kind, version, payload, aggregate, validate-not_blank e.aggregate_id aggregate)

  validate-bus_envelope :
      (ev : OutboxEvent) → IsPublishable l ev → validate l (bus_envelope ev) ≡ none
  unfolding to_event_bus_envelope to_envelope
  validate-bus_envelope ev (id, kind, payload, aggregate) =
      validate-valid (bus_envelope ev) id kind refl payload aggregate

  -- An outbox event with an id and a type that are not blank, a payload, and a valid aggregate id is
  -- accepted by the event bus, if the JSON package encodes its envelope; a consumer decodes an envelope
  -- with the event's ids, type and tenant, the version 1 and a payload, and finds the event's aggregate id in it, whatever the
  -- headers, the Kafka key and the NATS subject say.
  pub extract_aggregate_id-to_envelope :
      (ev : OutboxEvent) (b : Bytes) (headers : List (String × String)) (key subject : String)
      → IsPublishable l ev
      → l.marshal (bus_envelope ev) ≡ ok b
      → (to_bytes l (bus_envelope ev) ≡ ok b)
        × ((e : Envelope) × (from_bytes l b ≡ ok e) × Carries ev e)
        × (extract_aggregate_id l b headers key subject ≡ ok ev.aggregate_id)
  unfolding to_event_bus_envelope to_envelope
  extract_aggregate_id-to_envelope ev b headers key subject publishable made =
      let encoded =
        to_bytes-valid l laws (bus_envelope ev) (validate-bus_envelope ev publishable) ∙ made in
      let read =
        extract_aggregate_id-to_bytes l laws (bus_envelope ev) b headers key subject encoded in
      (encoded, read.0, read.1)

abbrev close_times : ℕ → Adapter → Adapter
close_times zero a = a
close_times (suc n) a = close_times n (close_adapter a)

abbrev IsClosable : Adapter → Type 0
IsClosable a =
    (a.panicked ≡ false) × (a.started ≡ true → (a.stop_closed ≡ false) × (a.results_closed ≡ false))

close_adapter-IsClosable : (a : Adapter) → IsClosable a → IsClosable (close_adapter a)
unfolding close_adapter
close_adapter-IsClosable a (calm, opened) = elim (Bool-cases a.started) [
  | inr idle ↦ simp (idle, close_adapter) (calm, λ h. absurd (ground (arith, h)))
  | inl running ↦
      simp (running, close_adapter)
        (simp (calm, (opened running).0, (opened running).1) refl, λ h. absurd (ground (arith, h)))
]

-- However often an adapter is closed, no channel is closed twice.
close_times-panicked : (n : ℕ) → (close_times n new_adapter).panicked ≡ false
unfolding new_adapter start
close_times-panicked n = (closable n new_adapter (refl, λ h. (refl, refl))).0
  where
    closable : (n : ℕ) (a : Adapter) → IsClosable a → IsClosable (close_times n a)
    closable zero a h = h
    closable (suc n) a h = closable n (close_adapter a) (close_adapter-IsClosable a h)
