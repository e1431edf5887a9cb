-- ===== src/Cases/Fairness.antt =====
-- src/cases/fairness.rs: the tasks of `fairness`, and its verdict from the statistics of each round.
-- Floating point, the digest and the terminal are parameters; durations are nanoseconds.
pub mod Judged
pub mod Tasks
mod Tests
use schtest.Prelude.{
  ℕ, ◌+◌, ◌*◌, ◌^◌, Bool, true, false, Option, none, some, List, [], ◌∷◌, ◌++◌, map, length,
  replicate, if◌then◌else◌,
}
use schtest.Util.Stats.Estimates.{Floats, Value, percentile}
use schtest.Util.Stats.Distribution.{Digest, new, add, estimates_of}
use schtest.Util.Stats.Visualize.{Screen, visualize}
use schtest.Util.System.{Mask, Core, System, Hyperthread, hyperthread_mask, logical_cpus}
use schtest.Workloads.Benchmark
use schtest.Workloads.Benchmark.{Outcome, converge}
use schtest.Cases.Topology.{Metric, ok, err, panicked}
use schtest.Cases.Target.{Verdict, passes, fails, unfinished, measured_of}

-- A process that spins, pinned to a mask (none is a CPU past the end of the set) or not.
pub data Task : Type 0 where
  pinned : Option Mask → Task
  floating : Task

pub pinned_tasks : List Core → List Task
pinned_tasks [] = []
pinned_tasks (c ∷ cs) = map (λ h. pinned (hyperthread_mask h)) c.hyperthreads ++ pinned_tasks cs

-- The processes of the case, one after the other.
pub tasks : System → List Task
unfolding pinned_tasks
tasks s = pinned_tasks s.all_cores ++ replicate (logical_cpus s) floating

-- What a round leaves: whether the wait succeeded, the total time of each process or none where
-- `stats` failed, and the time that the round took.
pub record Seen : Type 0 where
  pub waited : Bool
  pub total_times : List (Option ℕ)
  pub elapsed : ℕ

module _ {F D : Type 0} (f : Floats F) (t : Value F ℕ) (screen : Screen F ℕ) (digest : Digest F D)
    (of_usize : ℕ → F) where
  -- The distribution of the times that could be read.
  pub collect : D → List (Option ℕ) → D
  collect d [] = d
  collect d (none ∷ times) = collect d times
  collect d (some time ∷ times) = collect (add f digest t time d) times

  pub seconds : Option ℕ → F
  seconds none = f.decimal 0 0
  seconds (some time) = t.to_f64 time

  pub sum : F → List F → F
  sum acc [] = acc
  sum acc (x ∷ xs) = sum (f.add acc x) xs

  pub mean : List F → F
  unfolding sum
  mean times = f.div (sum (f.decimal 0 0) times) (of_usize (length times))

  pub metric : Seen → Metric F
  unfolding collect seconds mean
  metric seen =
      if seen.waited
      then (let estimates = estimates_of f digest t (collect (new f digest t) seen.total_times) in
          elim (visualize f t screen estimates none) [
            | none ↦ panicked
            | some line ↦ elim (percentile f t estimates (f.decimal 1 1)) [
              | none ↦ ok (f.decimal 0 0)
              | some p10 ↦ ok (f.div (t.to_f64 p10) (mean (map seconds seen.total_times)))
            ]
          ])
      else err

  -- The end of the case: an error if the final value is below the target.
  pub judge : Outcome F → Verdict
  judge (Benchmark.ok final_value) = if f.lt final_value (f.decimal 6 1) then fails else passes
  judge Benchmark.err = fails
  judge Benchmark.out_of_fuel = unfinished

  pub fairness : (estimate : ℕ → ℕ → ℕ → ℕ) → (fuel : ℕ) → (round : ℕ → ℕ → Seen) → Verdict
  unfolding judge metric
  fairness estimate fuel round = judge (
      converge (f.le (f.decimal 6 1)) (f.decimal 0 0) estimate fuel (some (5 * 10 ^ 9))
        (some (10 * 10 ^ 9))
        (λ i iters. measured_of (metric (round i iters)) (round i iters).elapsed))
