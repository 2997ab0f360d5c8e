-- ===== src/Sse.antt =====
-- Server-sent events that reconnect: src/client/reconnectSse.ts and src/client/observeSse.ts.
pub mod Reconnect
pub mod Observe
pub mod Bounds
pub mod Resume
pub mod Reports
pub mod Tests
