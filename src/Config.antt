-- ===== src/Config.antt =====
-- crates/sidealsa-config/src/lib.rs: the profile of a device, its validation, and what the daemon and
-- the engine derive from it.
pub mod Types
pub mod Derived
pub mod Positions
pub mod Ports
pub mod Device
pub mod Profile
pub mod Timing
pub mod Fingerprint
pub mod Examples
