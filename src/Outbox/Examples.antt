-- ===== src/Outbox/Examples.antt =====
-- The outbox's theorems on concrete inputs.
pub mod Memory
pub mod Data
mod Tables
mod Publishing
mod Acks
mod Scheduling
mod Events
