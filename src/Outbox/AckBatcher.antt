-- ===== src/Outbox/AckBatcher.antt =====
-- sdk/pkg/outbox/ack_marker_batcher.go
pub mod Defs
pub mod Batches
pub mod Wakes
unfoldable pub use Defs.*
