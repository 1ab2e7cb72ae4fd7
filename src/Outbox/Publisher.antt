-- ===== src/Outbox/Publisher.antt =====
-- sdk/pkg/outbox/publisher.go
pub mod Defs
pub mod Batch
pub mod Metrics
pub mod Lookup
pub mod Outcome
pub mod Partition
pub mod Filter
pub mod Delivery
pub mod Ack
unfoldable pub use Defs.*
unfoldable pub use Batch.*
unfoldable pub use Metrics.*
