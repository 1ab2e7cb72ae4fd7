-- ===== src/Outbox.antt =====
-- The transactional outbox (sdk/pkg/outbox).
pub mod Event
pub mod Repository
pub mod PublisherConfig
pub mod Publisher
pub mod Scheduler
pub mod Gorm
pub mod Retry
pub mod TopicMapper
pub mod AckBatcher
pub mod Adapter
mod Examples
