-- ===== src/Config/EventBusConfig.antt =====
-- sdk/config/eventbus.go: its structs (Structs), SetDefaults (Defaults), the checks of Validate (Rules,
-- NatsChecks, Checks), and what Validate accepts after SetDefaults, from its parts (Thresholds, Parts,
-- Kinds, Streams, Nats, Sides) to the whole (Cases, Laws).
pub mod Structs
pub mod Defaults
pub mod Rules
pub mod NatsChecks
pub mod Checks
pub mod Thresholds
pub mod Parts
pub mod Kinds
pub mod Streams
pub mod Nats
pub mod Sides
pub mod Cases
pub mod Laws
mod Examples
