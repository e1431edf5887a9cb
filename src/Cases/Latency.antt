-- ===== src/Cases/Latency.antt =====
-- src/cases/latency.rs: `adaptive_priority`, from what its semaphores have collected in each round.
-- Floating point, the digest and the terminal are parameters; durations are nanoseconds.
pub mod Exchange
pub mod Judged
mod Tests
use schtest.Prelude.{ℕ, ◌*◌, ◌^◌, Bool, true, false, Option, none, some, if◌then◌else◌}
use schtest.Util.Stats.Estimates.{Floats, Value, Estimates, percentile}
use schtest.Util.Stats.Distribution.{Digest, new, estimates_of}
use schtest.Util.Stats.Visualize.{Screen, visualize}
use schtest.Util.System.{Mask, System, hyperthread_mask}
use schtest.Cases.Basic.{first}
use schtest.Workloads.Semaphore.{Semaphore, collect_wake_stats}
use schtest.Workloads.Benchmark
use schtest.Workloads.Benchmark.{Outcome, converge}
use schtest.Cases.Topology.{Metric, ok, err, panicked}
use schtest.Cases.Target.{Verdict, passes, fails, unfinished, measured_of}

-- The mask of all threads: the first hyperthread of the first core; the outer `none` is a panic.
pub first_mask : System → Option (Option Mask)
first_mask s = first s.all_cores (λ c. first c.hyperthreads (λ h. some (hyperthread_mask h)))

-- What a round leaves: whether the wait succeeded, the semaphores, and the time that it took.
pub record Seen : Type 0 where
  pub waited : Bool
  pub fast_sem : Semaphore
  pub slow_sem : Semaphore
  pub elapsed : ℕ

module _ {F D : Type 0} (f : Floats F) (t : Value F ℕ) (screen : Screen F ℕ)
    (digest : Digest F D) where
  -- The estimates of the wake times of a semaphore; none is a read of a slot that was never written.
  pub wake_estimates : Semaphore → Option (Estimates F ℕ)
  wake_estimates s =
      elim (collect_wake_stats 2 1024 digest.merge_unsorted t.to_f64 s (new f digest t)) [
        | none ↦ none
        | some (dist, after) ↦ some (estimates_of f digest t dist)
      ]

  -- The ratio of the two 90th percentiles, once both lines are drawn.
  pub ratio : Estimates F ℕ → Estimates F ℕ → Metric F
  ratio fast_est slow_est = elim (visualize f t screen fast_est none) [
    | none ↦ panicked
    | some fast_line ↦ elim (visualize f t screen slow_est none) [
      | none ↦ panicked
      | some slow_line ↦ elim (percentile f t fast_est (f.decimal 9 1)) [
        | none ↦ err
        | some p90_fast ↦ elim (percentile f t slow_est (f.decimal 9 1)) [
          | none ↦ err
          | some p90_slow ↦ ok (f.div (t.to_f64 p90_fast) (t.to_f64 p90_slow))
        ]
      ]
    ]
  ]

  pub metric : Seen → Metric F
  unfolding wake_estimates ratio
  metric seen =
      if seen.waited
      then elim (wake_estimates seen.fast_sem) [
        | none ↦ panicked
        | some fast_est ↦ elim (wake_estimates seen.slow_sem) [
          | none ↦ panicked
          | some slow_est ↦ ratio fast_est slow_est
        ]
      ]
      else err

  abbrev pub target : F
  target = f.decimal 5 1

  -- The end of the case: an error if the final value is at or above the target.
  pub judge : Outcome F → Verdict
  judge (Benchmark.ok final_value) = if f.le target final_value then fails else passes
  judge Benchmark.err = fails
  judge Benchmark.out_of_fuel = unfinished

  pub adaptive_priority : (estimate : ℕ → ℕ → ℕ → ℕ) → (fuel : ℕ) → (round : ℕ → ℕ → Seen) → Verdict
  unfolding judge metric
  adaptive_priority estimate fuel round = judge (
      converge (f.le target) (f.decimal 0 0) estimate fuel (some (5 * 10 ^ 9)) (some (10 * 10 ^ 9))
        (λ i iters. measured_of (metric (round i iters)) (round i iters).elapsed))
