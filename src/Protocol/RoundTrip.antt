-- ===== src/Protocol/RoundTrip.antt =====
-- What crates/sidealsa-protocol/src/lib.rs writes, it reads back.
pub mod Rules
pub mod Values
pub mod Records
pub mod Counters
pub mod Messages
pub mod Frames
pub mod Streams
pub mod Truncated
