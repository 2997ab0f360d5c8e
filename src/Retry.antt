-- ===== src/Retry.antt =====
-- src/plugins/retryPlugin.ts: which failures are retried, and after which delay. Time is counted in
-- units so small that every duration is a whole number of them; `ms` of them are a millisecond.
pub mod Options
pub mod Server
pub mod Decision
pub mod Laws
mod Tests
