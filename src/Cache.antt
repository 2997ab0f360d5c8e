-- ===== src/Cache.antt =====
-- The caches of the client: src/plugins/cacheStores.ts.
pub mod Memory
pub mod Recency
pub mod Usage
mod Tests
