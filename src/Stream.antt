-- ===== src/Stream.antt =====
-- The streamed responses of src/utils/parseStreamingResponse.ts: lines, server-sent events and
-- newline-delimited JSON. A text is the list of its code points.
pub mod Lines
pub mod Reference
pub mod Chunks
pub mod Events
pub mod Ndjson
pub mod Written
mod Tests
