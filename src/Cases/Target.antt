-- ===== src/Cases/Target.antt =====
-- How the cases of src/cases that call `converge` measure and end.
pub mod Ending
use schtest.Prelude.{ℕ}
use schtest.Workloads.Benchmark.{Measured, measured, failed}
use schtest.Cases.Topology.{Metric, ok, err, panicked}

-- A case passes, or it fails with an error or a panic.
pub data Verdict : Type 0 where
  passes fails unfinished : Verdict

-- A metric with the time that it took; a panic ends the case like an error.
unfoldable pub measured_of : {F : Type 0} → Metric F → ℕ → Measured F
measured_of (ok metric) elapsed = measured metric elapsed
measured_of err elapsed = failed
measured_of panicked elapsed = failed
