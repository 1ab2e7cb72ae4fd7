-- ===== src/Outbox/Gorm.antt =====
-- sdk/pkg/outbox/adapters/gorm: the repository over a database table.
pub mod Table
pub mod Store
pub mod Finders
pub mod Writers
pub mod Repository
pub mod Marking
pub mod Selection
