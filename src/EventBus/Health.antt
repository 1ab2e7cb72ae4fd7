-- ===== src/EventBus/Health.antt =====
-- The watching of health check messages (sdk/pkg/eventbus/health_check_subscriber.go).
pub mod Defs
pub mod Laws
pub mod Outage
mod Examples
