-- ===== src/Workloads/Benchmark/Measure/Tests.antt =====
-- Benchmarks of a workload that needs 2 for each iteration.
use schtest.Prelude.{ℕ, ◌*◌, ◌/◌, ◌≡◌, refl, Option, some, List, [], ◌∷◌}
use schtest.Prelude.Text.{codes}
use schtest.Util.Stats.Distribution.{estimates_of}
use schtest.Util.Stats.Estimates.{Value, estimates, percentile}
use schtest.Util.Stats.Visualize.{visualize, byte_length}
use schtest.Util.Stats.Visualize.Numbers.{unit, f, screen, digest}
use schtest.Workloads.Benchmark.Measure.{
  CriterionCall, latency, count, BenchArgs, Reply, ran, measure, latency_group, count_group,
}
use schtest.Workloads.Benchmark.Measure.Traced.{Measures, measure-Measures}

abbrev seconds : Value ℕ ℕ
seconds = record { to_f64 = λ n. n; of_f64 = λ x. x }

abbrev args : BenchArgs ℕ
args = record {
  name = codes "case";
  sample_size = 10;
  significance_level = unit / 20;
  percentile = unit / 2;
}

abbrev of_latency : ℕ → ℕ → Reply (List ℕ)
of_latency i iters = ran (latency ((1 * unit) ∷ (2 * unit) ∷ (3 * unit) ∷ [])) iters

abbrev of_count : ℕ → ℕ → Reply (List ℕ)
of_count i iters = ran (count (10 * iters)) (2 * iters)

abbrev run : (ℕ → ℕ → Reply (List ℕ)) → List ℕ → Option (List (CriterionCall ℕ))
run call counts =
    measure f seconds screen digest (λ n. n * unit) some args (codes "fast") counts call

latencies :
    run of_latency (1 ∷ 5 ∷ [])
    ≡ some (
        latency_group f seconds screen digest
          (λ n. n * unit)
          some
          args
          (codes "fast")
          ((2 * unit) ∷ (10 * unit) ∷ []))
unfolding measure latency_group visualize percentile estimates_of byte_length estimates
latencies = refl

throughputs :
    run of_count (3 ∷ 5 ∷ [])
    ≡ some (
        count_group f seconds screen digest
          (λ n. n * unit)
          some
          args
          (codes "fast")
          (6 ∷ 10 ∷ [], some 50))
unfolding measure count_group
throughputs = refl

measure-Measures_example :
    Measures f seconds screen digest
      (λ n. n * unit)
      some
      args
      of_latency
      (codes "fast")
      (1 ∷ 5 ∷ [])
      (run of_latency (1 ∷ 5 ∷ []))
measure-Measures_example =
    measure-Measures f seconds screen digest (λ n. n * unit) some args of_latency (codes "fast")
      (1 ∷ 5 ∷ [])
