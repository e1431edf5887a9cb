-- ===== src/Workloads/Benchmark/Measure.antt =====
-- `measure` of src/workloads/benchmark.rs: a benchmark run by Criterion (a library). Its calls are a
-- trace; the iteration counts that it asks for, the results of the workload and the times that these
-- take are parameters. Durations are nanoseconds, and `none` is a panic.
pub mod Calls
pub mod Latencies
pub mod Counts
pub mod Traced
mod Tests
use schtest.Prelude.{
  ℕ, zero, suc, ◌+◌, ◌%◌, ◌^◌, Bool, true, false, Option, none, some, List, [], ◌∷◌, if◌then◌else◌,
  unwrap_or,
}
use schtest.Util.Stats.Estimates.{Floats, Value, percentile}
use schtest.Util.Stats.Distribution.{Digest, estimates_of}
use schtest.Util.Stats.Visualize.{Screen, visualize}

pub data BenchResult (D : Type 0) : Type 0 where
  latency : D → BenchResult D
  count : ℕ → BenchResult D

pub record BenchArgs (F : Type 0) : Type 0 where
  pub name : List ℕ
  pub sample_size : ℕ
  pub significance_level : F
  pub percentile : F

-- A call of the closure: its error, or its result and the time that it took.
pub data Reply (D : Type 0) : Type 0 where
  failed : Reply D
  ran : BenchResult D → (elapsed : ℕ) → Reply D

-- A call of Criterion; `bench_function` with the times that its samples reported.
pub data CriterionCall (F : Type 0) : Type 0 where
  set_sample_size : ℕ → CriterionCall F
  set_significance_level : F → CriterionCall F
  benchmark_group : List ℕ → CriterionCall F
  sampling_mode_flat finish : CriterionCall F
  bench_function : List ℕ → (times : List ℕ) → CriterionCall F
  throughput : ℕ → CriterionCall F

-- `wait` with the question mark, and then the function: the closure of the macro `measure!`.
unfoldable pub measured_call : {D : Type 0} → (waits : Bool) → Reply D → Reply D
measured_call waits r = if waits then r else failed

-- `iters as u32`
abbrev pub as_u32 : ℕ → ℕ
as_u32 iters = iters % 2 ^ 32

-- The times and the last throughput of the samples so far.
abbrev pub Counted : Type 0
Counted = List ℕ × Option ℕ

module _ {F D : Type 0} (f : Floats F) (t : Value F ℕ) (screen : Screen F ℕ) (digest : Digest F D)
    (of_u64 : ℕ → F) (from_secs_f64 : F → Option ℕ) where
  -- A sample of a latency benchmark.
  pub latency_sample : BenchArgs F → ℕ → Reply D → Option ℕ
  latency_sample args iters failed = none
  latency_sample args iters (ran (count v) elapsed) = some 0
  latency_sample args iters (ran (latency dist) elapsed) =
      let est = estimates_of f digest t dist in
      elim (visualize f t screen est none) [
        | none ↦ none
        | some line ↦
            let latency = t.to_f64 (unwrap_or (percentile f t est args.percentile) 0) in
            from_secs_f64 (f.mul latency (of_u64 iters))
      ]

  -- The samples of a latency benchmark, where `i` calls have been made.
  pub latency_samples : BenchArgs F → (ℕ → ℕ → Reply D) → ℕ → List ℕ → Option (List ℕ)
  unfolding latency_sample
  latency_samples args measure i [] = some []
  latency_samples args measure i (iters ∷ counts) =
      elim (latency_sample args iters (measure i (as_u32 iters))) [
        | none ↦ none
        | some time ↦ elim (latency_samples args measure (i + 1) counts) [
          | none ↦ none
          | some times ↦ some (time ∷ times)
        ]
      ]

  -- `last_throughput` after a sample.
  pub last_of : BenchResult D → Option ℕ → Option ℕ
  last_of (latency dist) last = last
  last_of (count v) last = some v

  pub count_samples : (ℕ → ℕ → Reply D) → ℕ → List ℕ → Option ℕ → Option Counted
  unfolding last_of
  count_samples measure i [] last = some ([], last)
  count_samples measure i (iters ∷ counts) last = elim (measure i (as_u32 iters)) [
    | failed ↦ none
    | ran r elapsed ↦ elim (count_samples measure (i + 1) counts (last_of r last)) [
      | none ↦ none
      | some (times, after) ↦ some (elapsed ∷ times, after)
    ]
  ]

  pub latency_group : BenchArgs F → List ℕ → List ℕ → List (CriterionCall F)
  latency_group args name times =
      set_sample_size args.sample_size
      ∷ set_significance_level args.significance_level
      ∷ benchmark_group args.name
      ∷ sampling_mode_flat
      ∷ bench_function name times
      ∷ finish
      ∷ []

  pub count_group : BenchArgs F → List ℕ → Counted → List (CriterionCall F)
  count_group args name (times, last) =
      set_sample_size args.sample_size
      ∷ set_significance_level args.significance_level
      ∷ benchmark_group args.name
      ∷ bench_function name times
      ∷ throughput (unwrap_or last 1)
      ∷ finish
      ∷ []

  -- The calls of `measure` that returns; it returns no error.
  pub measure :
      BenchArgs F
      → (name : List ℕ) → (counts : List ℕ) → (measure : ℕ → ℕ → Reply D)
      → Option (List (CriterionCall F))
  unfolding latency_samples latency_group count_samples count_group
  measure args name counts call = elim (call 0 0) [
    | failed ↦ none
    | ran (latency dist) elapsed ↦ elim (latency_samples args call 1 counts) [
      | none ↦ none
      | some times ↦ some (latency_group args name times)
    ]
    | ran (count v) elapsed ↦ elim (count_samples call 1 counts none) [
      | none ↦ none
      | some counted ↦ some (count_group args name counted)
    ]
  ]
