-- ===== src/Outbox/Repository.antt =====
-- sdk/pkg/outbox/repository.go and event_publisher.go: the interfaces between the outbox's parts.
-- An implementation keeps a state of its own; a call takes the state and returns its answer and the
-- new state. The `ctx` argument is left out, but for the deadline that the publisher puts on it.
use jxt_core.Base.{ℕ, ℤ, String, Bool, Option, List, State}
use jxt_core.Outbox.Event.{Error, OutboxEvent, Envelope, EventStatus}

-- A Go pair `(A, error)`.
pub data Result (A : Type 0) : Type 0 where
  ok : A → Result A
  err : Error → Result A

-- The methods of OutboxRepository that the publisher and the scheduler call.
pub record OutboxRepository : Type 1 where
  pub Store : Type 0
  pub find_pending_events : ℤ → ℤ → State Store (Result (List OutboxEvent))
  pub find_events_for_retry : ℤ → ℤ → State Store (Result (List OutboxEvent))
  pub find_max_retry_events : ℤ → ℤ → State Store (Result (List OutboxEvent))
  pub find_by_idempotency_key : String → State Store (Result (Option OutboxEvent))
  pub find_published_by_idempotency_keys : List String → State Store (Result (List String))
  pub update : OutboxEvent → State Store (Option Error)
  pub mark_as_published : String → State Store (Option Error)
  pub mark_batch_as_published : List OutboxEvent → State Store (Option Error)
  pub mark_as_max_retry : String → String → State Store (Option Error)
  pub increment_retry : String → String → State Store (Option Error)
  pub delete_published_before : ℕ → ℤ → State Store (Result ℕ)
  pub count : EventStatus → ℤ → State Store (Result ℕ)

-- EventPublisher, with the marker interface SyncSemanticsPublisher as a flag. The first argument of
-- `publish_envelope` is the timeout of its context, if it has one.
pub record EventPublisher : Type 1 where
  pub Bus : Type 0
  pub publish_envelope : Option ℤ → String → Envelope → State Bus (Option Error)
  pub is_sync_semantics : Bool
