-- ===== src/CachePolicy.antt =====
-- Which responses the cache may keep, and for how long: src/plugins/cachePolicy.ts.
pub mod Directives
pub mod Policy
pub mod Requests
pub mod Freshness
pub mod Tests
