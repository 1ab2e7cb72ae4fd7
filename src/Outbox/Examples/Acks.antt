-- ===== src/Outbox/Examples/Acks.antt =====
-- The ACK listener's theorems at concrete inputs: a success, a nil result and a failure.
use jxt_core.Base.{
  ℕ, pos, ◌≡◌, refl, true, false, Bool, if◌then◌else◌, Option, none, some, List, [], ◌∷◌,
}
use jxt_core.Outbox.Event.{PublishResult}
use jxt_core.Outbox.Publisher.Ack.{handle_ack_results, mark_each, store-handle_ack_results}
use jxt_core.Outbox.AckBatcher.{Batcher, new_batcher}
use jxt_core.Outbox.Examples.Data.{accepting, publisher, world, refusal}

abbrev result : Bool → PublishResult
result success = record {
  event_id = "e2";
  topic = "archive-events";
  success = success;
  error = if success then none else some refusal;
  timestamp = 60;
  aggregate_id = "a1";
  event_type = "ArchiveCreated";
  tenant_id = pos 7;
}

abbrev results : List (Option PublishResult)
results = some (result true) ∷ none ∷ some (result false) ∷ []

store-handle_ack_results_example :
    (handle_ack_results (publisher accepting) results (world 0, none)).0.store
    ≡ mark_each (publisher accepting) ("e2" ∷ []) (world {Bus = ℕ} 0).store
store-handle_ack_results_example =
    store-handle_ack_results (publisher accepting) results (world 0, none) refl

abbrev batcher : Batcher
batcher = new_batcher (pos 10) (pos 5)
