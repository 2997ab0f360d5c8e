-- ===== src/Concurrency.antt =====
-- src/plugins/concurrencyPlugin.ts: a limit on the active requests of a key, with a wait queue.
pub mod State
pub mod Teardown
pub mod Invariant
pub mod Requests
pub mod Releases
pub mod Waiters
pub mod Departures
pub mod Histories
mod Tests
