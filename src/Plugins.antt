-- ===== src/Plugins.antt =====
-- Installing plugins on a client and removing them: src/client/Client.ts, src/plugins/PluginScope.ts.
pub mod Cleanups
pub mod Effects
pub mod Installed
pub mod Lookups
pub mod Consistent
pub mod Undone
pub mod Tests
