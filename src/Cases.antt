-- ===== src/Cases.antt =====
-- src/cases: the test cases, as far as they compute.
pub mod Topology
pub mod Basic
pub mod Target
pub mod Latency
pub mod Fairness
pub mod Spreading
