-- ===== src/Circuit.antt =====
-- src/plugins/circuitBreakerPlugin.ts. The circuit of a key, the table of circuits, and the hooks;
-- the child modules define these and prove their laws.
pub mod Options
pub mod Record
pub mod Table
pub mod Hooks
mod Tests
