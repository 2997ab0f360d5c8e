-- ===== src/Config.antt =====
-- The merging of configurations by src/core/ConfigMerger.ts, other than their headers.
pub mod Spread
pub mod Extensions
pub mod Bodies
pub mod Tests
