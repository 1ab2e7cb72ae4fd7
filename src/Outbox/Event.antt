-- ===== src/Outbox/Event.antt =====
-- sdk/pkg/outbox/event.go and the messages of event_publisher.go, with the laws of the event.
pub mod Defs
pub mod Retries
pub mod Lifecycle
pub mod Keys
unfoldable pub use Defs.*
