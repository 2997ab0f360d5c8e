-- ===== src/Hooks.antt =====
-- The hooks of plugins and the interceptors of src/interceptors/.
pub mod Runners
pub mod Entries
pub mod Registry
pub mod Order
pub mod Registered
pub mod Scope
pub mod Cleanup
mod Tests
pub mod RawResponses
