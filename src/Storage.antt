-- ===== src/Storage.antt =====
-- storage: the adapters of caches, queues and locks; modelled is the cache in memory.
pub mod Cache
pub mod Counter
pub mod SetNx
mod Examples
