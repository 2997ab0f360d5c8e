-- ===== src/Headers.antt =====
-- Header fields, and how the header fields of two configurations are merged.
pub mod Fields
pub mod Merge
pub mod Normal
pub mod Tests
