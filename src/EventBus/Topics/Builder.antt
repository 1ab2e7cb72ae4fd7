-- ===== src/EventBus/Topics/Builder.antt =====
-- sdk/pkg/eventbus/topic_builder.go: its methods (Defs), chains of their calls (Calls), and when Build
-- reaches the event bus (Laws).
pub mod Defs
pub mod Calls
pub mod Laws
