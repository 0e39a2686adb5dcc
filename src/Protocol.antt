-- ===== src/Protocol.antt =====
-- crates/sidealsa-protocol/src/lib.rs: the messages between a client and the daemon and the bytes
-- that carry them, the layout of the shared region, and the order of sequence numbers.
pub mod Types
pub mod Codes
pub mod Utf8
pub mod Wire
pub mod Encode
pub mod Decode
pub mod Frame
pub mod RoundTrip
pub mod Layout
pub mod Sequence
mod Examples
