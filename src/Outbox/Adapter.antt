-- ===== src/Outbox/Adapter.antt =====
-- EventBusAdapter of sdk/pkg/outbox/adapters/eventbus_adapter.go, through which the outbox publishes on the
-- event bus: the two conversions, the loops that pass results on, and Close.
use jxt_core.Base.{ℕ, ℤ, String, Bool, true, false, ◌||◌, Option, List, [], ◌∷◌, if◌then◌else◌}
use jxt_core.Outbox.Event.{Error, PublishResult}
use jxt_core.Outbox.Event as Event
use jxt_core.EventBus.Envelope.Defs.{Envelope}
mod Laws
mod Examples

-- PublishResult of the event bus.
pub record BusResult : Type 0 where
  pub event_id : String
  pub topic : String
  pub success : Bool
  pub error : Option Error
  pub timestamp : ℕ
  pub aggregate_id : String
  pub event_type : String
  pub tenant_id : ℤ

unfoldable pub to_event_bus_envelope : Event.Envelope → Envelope
to_event_bus_envelope e = record {
  event_id = e.event_id;
  aggregate_id = e.aggregate_id;
  event_type = e.event_type;
  event_version = e.event_version;
  timestamp = e.timestamp;
  trace_id = e.trace_id;
  correlation_id = e.correlation_id;
  tenant_id = e.tenant_id;
  payload = e.payload;
}

unfoldable pub to_outbox_publish_result : BusResult → PublishResult
to_outbox_publish_result r = record {
  event_id = r.event_id;
  topic = r.topic;
  success = r.success;
  error = r.error;
  timestamp = r.timestamp;
  aggregate_id = r.aggregate_id;
  event_type = r.event_type;
  tenant_id = r.tenant_id;
}

-- What the loop's selects choose: a result, with whether it is passed on or the stop comes first, the
-- end of the source, or the stop.
pub data Choice : Type 0 where
  received : BusResult → Bool → Choice
  source_closed stopped : Choice

-- The results that are passed on.
unfoldable pub convert_results : List Choice → List PublishResult
unfolding to_outbox_publish_result
convert_results [] = []
convert_results (received r true ∷ cs) = to_outbox_publish_result r ∷ convert_results cs
convert_results (received r false ∷ cs) = []
convert_results (source_closed ∷ cs) = []
convert_results (stopped ∷ cs) = []

-- The flag, whether each of the two channels is closed, and whether one was closed twice.
pub record Adapter : Type 0 where
  pub started : Bool
  pub stop_closed : Bool
  pub results_closed : Bool
  pub panicked : Bool

unfoldable pub start : Adapter → Adapter
start a = if a.started then a else record a { started = true }

unfoldable pub new_adapter : Adapter
unfolding start
new_adapter =
    start
      (record { started = false; stop_closed = false; results_closed = false; panicked = false })

-- Close waits for the loops in between, which all end once the stop channel is closed.
unfoldable pub close_adapter : Adapter → Adapter
close_adapter a =
    if a.started
    then record {
      started = false;
      stop_closed = true;
      results_closed = true;
      panicked = a.panicked || a.stop_closed || a.results_closed;
    }
    else a
