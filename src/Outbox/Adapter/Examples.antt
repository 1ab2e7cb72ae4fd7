-- ===== src/Outbox/Adapter/Examples.antt =====
-- An example of the adapter of the event bus (sdk/pkg/outbox/adapters/eventbus_adapter.go).
use jxt_core.Base.{pos, ◌≡◌, refl, [], ◌∷◌}
use jxt_core.Outbox.Event.{OutboxEvent}
use jxt_core.Outbox.Repository.{ok}
use jxt_core.Outbox.Publisher.Defs.{to_envelope}
use jxt_core.Outbox.Examples.Data.{pending_event}
use jxt_core.EventBus.Envelope.Defs.{
  Envelope, validate_aggregate_id, to_bytes, from_bytes, extract_aggregate_id,
}
use jxt_core.EventBus.Envelope.Examples.{small_library, small_library-IsLibrary, encoded}
use jxt_core.Outbox.Adapter.{to_event_bus_envelope}
use jxt_core.Outbox.Adapter.Laws.{
  IsPublishable, Carries, bus_envelope, extract_aggregate_id-to_envelope,
}

abbrev order : OutboxEvent
order = record pending_event {
  id = "e-1";
  aggregate_id = "order-7";
  event_type = "OrderCreated";
  tenant_id = pos 0;
  payload = 123 ∷ 125 ∷ [];
}

order-IsPublishable : IsPublishable small_library order
unfolding validate_aggregate_id
order-IsPublishable = (refl, refl, refl, refl)

order_found : encoded (bus_envelope order) ≡ ok (1 ∷ [])
unfolding encoded to_event_bus_envelope to_envelope
order_found = refl

extract_aggregate_id-to_envelope_example :
    (to_bytes small_library (bus_envelope order) ≡ ok (1 ∷ []))
    × ((e : Envelope) × (from_bytes small_library (1 ∷ []) ≡ ok e) × Carries order e)
    × (extract_aggregate_id small_library (1 ∷ []) [] "other" "" ≡ ok "order-7")
extract_aggregate_id-to_envelope_example =
    extract_aggregate_id-to_envelope small_library small_library-IsLibrary order (1 ∷ []) [] "other"
      "" order-IsPublishable order_found
