-- ===== src/EventBus/Envelope.antt =====
-- The message envelope (sdk/pkg/eventbus/envelope.go).
pub mod Defs
pub mod Laws
pub mod Ids
pub mod Examples
