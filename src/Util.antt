-- ===== src/Util.antt =====
-- The parts of src/util.
pub mod Cgroups
pub mod Child
pub mod Clock
pub mod MemFd
pub mod Sched
pub mod Shared
pub mod Stats
pub mod System
pub mod User
