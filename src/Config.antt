-- ===== src/Config.antt =====
-- The configuration that the SDK reads (sdk/config).
pub mod EventBusConfig
