-- ===== src/EventBus/Topics.antt =====
-- The configuration of topics: type.go, topic_builder.go, topic_config_manager.go, and the methods of
-- kafka.go, nats.go and eventbus.go that apply it (all in sdk/pkg/eventbus).
pub mod Options
pub mod Names
pub mod Builder
pub mod Compare
pub mod Kafka
pub mod Nats
mod Examples
