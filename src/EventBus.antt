-- ===== src/EventBus.antt =====
-- The event bus (sdk/pkg/eventbus).
pub mod Pipeline
pub mod Health
pub mod Envelope
pub mod Topics
