-- ===== src/Core.antt =====
-- crates/sidealsa-core/src: the routing of channels, the latency guard, and the timeline.
pub mod Routing
pub mod Latency
pub mod Timeline
mod Examples
