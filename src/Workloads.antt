-- ===== src/Workloads.antt =====
-- The parts of src/workloads.
pub mod Benchmark
pub mod Context
pub mod Process
pub mod Semaphore
pub mod Spinner
