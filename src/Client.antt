-- ===== src/Client.antt =====
-- crates/sidealsa-client/src/shared.rs: the region of memory that a client and the daemon share.
pub mod Slots
pub mod Region
pub mod Capture
mod Examples
