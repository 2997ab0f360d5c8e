-- ===== src/Auth.antt =====
-- The authentication plugin, src/plugins/authPlugin.ts.
pub mod Tokens
pub mod Priority
pub mod Refresh
pub mod Wanted
pub mod Flight
pub mod Tests
