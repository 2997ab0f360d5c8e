-- ===== src/RateLimit.antt =====
-- src/plugins/rateLimitPlugin.ts: at most `maxRequests` transport attempts of a key in any rolling
-- interval, with a wait queue and a shared Retry-After cooldown.
pub mod State
pub mod Window
pub mod Steps
pub mod Wakeups
pub mod Histories
mod Tests
pub mod Table
pub mod Trimming
pub mod Keys
pub mod Records
pub mod Rolling
pub mod Eviction
pub mod States
mod KeyTests
