-- ===== src/EventBus/Topics/Compare.antt =====
-- sdk/pkg/eventbus/topic_config_manager.go: its functions (Defs), and when they find two configurations
-- to agree (Agreement).
pub mod Defs
pub mod Agreement
