-- ===== src/Workloads/Benchmark/Measure/Traced.antt =====
-- What `measure` of src/workloads/benchmark.rs tells Criterion, and when it panics.
use schtest.Prelude.{
  ℕ, ◌≡◌, subst, Option, none, some, List, [], ◌∷◌, unwrap_or, inl, inr, Option-cases,
}
use schtest.Util.Stats.Estimates.{Floats, Value}
use schtest.Util.Stats.Distribution.{Digest}
use schtest.Util.Stats.Visualize.{Screen}
use schtest.Workloads.Benchmark.Measure.{
  latency, count, BenchArgs, Reply, failed, ran, CriterionCall, set_sample_size,
  set_significance_level, benchmark_group, sampling_mode_flat, bench_function, throughput, finish,
  latency_group, count_group, measure,
}
use schtest.Workloads.Benchmark.Measure.Calls.{Reply-cases}
use schtest.Workloads.Benchmark.Measure.Latencies.{Samples, samples, samples-Samples}
use schtest.Workloads.Benchmark.Measure.Counts.{Counts, count_all, count_all-Counts}

module _ {F D : Type 0} (f : Floats F) (t : Value F ℕ) (screen : Screen F ℕ) (digest : Digest F D)
    (of_u64 : ℕ → F) (from_secs_f64 : F → Option ℕ) (args : BenchArgs F)
    (call : ℕ → ℕ → Reply D) where
  -- What `measure` may come to.
  pub data Measures (name counts : List ℕ) : Option (List (CriterionCall F)) → Type 0 where
    rejected : call 0 0 ≡ failed → Measures name counts none
    latency_panics :
        (dist : D) (elapsed : ℕ)
        → call 0 0 ≡ ran (latency dist) elapsed
        → Samples f t screen digest of_u64 from_secs_f64 args call 1 counts none
        → Measures name counts none
    count_panics :
        (v elapsed : ℕ)
        → call 0 0 ≡ ran (count v) elapsed
        → Counts f t screen digest of_u64 from_secs_f64 args call 1 counts none none
        → Measures name counts none
    latency_runs :
        (dist : D) (elapsed : ℕ) (times : List ℕ)
        → call 0 0 ≡ ran (latency dist) elapsed
        → Samples f t screen digest of_u64 from_secs_f64 args call 1 counts (some times)
        → Measures name counts (
            some (
              set_sample_size args.sample_size
              ∷ set_significance_level args.significance_level
              ∷ benchmark_group args.name
              ∷ sampling_mode_flat
              ∷ bench_function name times
              ∷ finish
              ∷ []))
    count_runs :
        (v elapsed : ℕ) (times : List ℕ) (last : Option ℕ)
        → call 0 0 ≡ ran (count v) elapsed
        → Counts f t screen digest of_u64 from_secs_f64 args call 1 counts none (some (times, last))
        → Measures name counts (
            some (
              set_sample_size args.sample_size
              ∷ set_significance_level args.significance_level
              ∷ benchmark_group args.name
              ∷ bench_function name times
              ∷ throughput (unwrap_or last 1)
              ∷ finish
              ∷ []))

  -- The first call of the workload, with no iterations, decides on the kind of the benchmark; if it
  -- fails, `measure` panics. Then it is called once for each sample, with the count that Criterion
  -- asks for as a u32. A latency benchmark draws the estimates of each, reports the percentile of the
  -- latency times that count, and panics if a call fails, if the estimates of one cannot be drawn, or
  -- if the time is no duration; it only reports times if all calls succeeded and all estimates were
  -- drawn. A count benchmark reports the time of each call, panics if one fails, and sets the
  -- throughput after all samples, to the last count or to 1.
  pub measure-Measures :
      (name counts : List ℕ)
      → Measures name counts (measure f t screen digest of_u64 from_secs_f64 args name counts call)
  unfolding measure latency_group count_group
  measure-Measures name counts = elim (Reply-cases call (call 0 0)) [
    | inl bad ↦ rw (measure, bad) (rejected bad)
    | inr (latency dist, elapsed, good) ↦
        elim (Option-cases (samples f t screen digest of_u64 from_secs_f64 args call 1 counts)) [
          | inl stuck ↦
              rw (measure, good, stuck)
                (latency_panics dist elapsed good (
                  subst (Samples f t screen digest of_u64 from_secs_f64 args call 1 counts) stuck
                    (samples-Samples f t screen digest of_u64 from_secs_f64 args call 1 counts)))
          | inr (times, all) ↦
              rw (measure, good, all)
                (latency_runs dist elapsed times good (
                  subst (Samples f t screen digest of_u64 from_secs_f64 args call 1 counts) all
                    (samples-Samples f t screen digest of_u64 from_secs_f64 args call 1 counts)))
        ]
    | inr (count v, elapsed, good) ↦
        elim (Option-cases
          (count_all f t screen digest of_u64 from_secs_f64 args call 1 counts none)) [
            | inl stuck ↦
                rw (measure, good, stuck)
                  (count_panics v elapsed good (
                    subst (Counts f t screen digest of_u64 from_secs_f64 args call 1 counts none)
                      stuck
                      (count_all-Counts f t screen digest of_u64 from_secs_f64 args call 1 counts
                        none)))
            | inr ((times, last), all) ↦
                rw (measure, good, all)
                  (count_runs v elapsed times last good (
                    subst (Counts f t screen digest of_u64 from_secs_f64 args call 1 counts none)
                      all
                      (count_all-Counts f t screen digest of_u64 from_secs_f64 args call 1 counts
                        none)))
          ]
  ]
