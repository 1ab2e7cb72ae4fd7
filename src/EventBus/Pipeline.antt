-- ===== src/EventBus/Pipeline.antt =====
-- sdk/pkg/eventbus/partition_pipeline.go
pub mod Inflight
pub mod Advance
pub mod Defs
pub mod Safety
pub mod Steps
pub mod NoLoss
pub mod Window
mod Examples
unfoldable pub use Inflight.*
unfoldable pub use Defs.*
