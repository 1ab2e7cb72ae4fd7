-- ===== src/Tenant/Provider.antt =====
-- sdk/pkg/tenant/provider: the configuration of the tenants, read from etcd and kept in memory.
pub mod Models
pub mod Keys
pub mod Data
pub mod Index
pub mod Load
pub mod Watch
pub mod View
pub mod Refine
pub mod Handlers
pub mod Events
pub mod Replay
pub mod Lookups
pub mod Scan
pub mod Loop
pub mod Outage
pub mod Examples
