-- ===== src/Pipeline.antt =====
-- The request pipeline of src/core/Pipeline.ts.
pub mod Parts
pub mod Responses
pub mod Attempts
pub mod Execution
pub mod Outcome
pub mod Settled
pub mod Direct
pub mod Retries
mod Tests
