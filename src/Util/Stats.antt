-- ===== src/Util/Stats.antt =====
-- src/util/stats.rs: samples, and what is computed from them.
pub mod Distribution
pub mod Estimates
pub mod Reservoir
pub mod Visualize
