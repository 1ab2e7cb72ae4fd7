-- ===== src/Outbox/Scheduler.antt =====
-- sdk/pkg/outbox/scheduler.go
pub mod Config
pub mod Defs
pub mod Lifecycle
pub mod Panics
unfoldable pub use Defs.*
