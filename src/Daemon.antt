-- ===== src/Daemon.antt =====
-- The daemon: crates/sidealsa-daemon.
pub mod Endpoint
pub mod Ownership
pub mod Playback
pub mod Session
mod Examples
