-- ===== src/Cases/Latency/Judged.antt =====
-- When `adaptive_priority` of src/cases/latency.rs passes.
use schtest.Prelude.{◌≢◌, ◌/◌, refl, ℕ, ◌*◌, ◌^◌, ◌≤◌, ◌<◌, ◌≡◌, ◌⊎◌, true, false, arith}
use schtest.Util.Stats.Estimates.{Floats, Value}
use schtest.Util.Stats.Distribution.{Digest}
use schtest.Util.Stats.Visualize.{Screen}
use schtest.Workloads.Benchmark
use schtest.Workloads.Benchmark.{Outcome, u32_max}
use schtest.Cases.Topology.{Metric, ok, err, panicked}
use schtest.Cases.Target.{Verdict, passes, fails, unfinished}
use schtest.Cases.Target.Ending.{
  Ending, hit, gave_up, broke_off, undecided, converge-Ending, case_ends,
}
use schtest.Cases.Latency.{Seen, metric, judge, adaptive_priority}

module _ {F D : Type 0} (f : Floats F) (t : Value F ℕ) (screen : Screen F ℕ) (digest : Digest F D)
    (round : ℕ → ℕ → Seen) where
  abbrev pub metric_of : ℕ → ℕ → Metric F
  metric_of i iters = metric f t screen digest (round i iters)

  -- The round that decides on the verdict.
  pub data Judged : Verdict → Type 0 where
    no_preference :
        (i iters : ℕ) (r : F)
        → metric_of i iters ≡ ok r
        → f.le (f.decimal 5 1) r ≡ true
        → 5 * 10 ^ 9 ≤ (round i iters).elapsed
        → Judged fails
    preferred :
        (i iters : ℕ) (r : F)
        → metric_of i iters ≡ ok r
        → f.le (f.decimal 5 1) r ≡ false
        → 10 * 10 ^ 9 < (round i iters).elapsed
        → Judged passes
    no_metric :
        (i iters : ℕ) → (metric_of i iters ≡ err) ⊎ (metric_of i iters ≡ panicked) → Judged fails
    open_end : Judged unfinished

  judge-Judged :
      (estimate : ℕ → ℕ → ℕ → ℕ) (o : Outcome F)
      → f.le (f.decimal 5 1) (f.decimal 0 0) ≡ false
      → Ending
          (f.le (f.decimal 5 1))
          (f.decimal 0 0)
          estimate
          (5 * 10 ^ 9)
          (10 * 10 ^ 9)
          metric_of
          (λ i iters. (round i iters).elapsed)
          o
      → Judged (judge f t screen digest o)
  unfolding judge
  judge-Judged estimate o low (hit i iters r e good long) =
      rw good (no_preference i iters r e good long)
  judge-Judged estimate o low (gave_up i iters r e bad long) =
      rw low (preferred i iters r e bad long)
  judge-Judged estimate o low (broke_off i iters e) = no_metric i iters e
  judge-Judged estimate o low undecided = open_end

  -- If 0.0 does not reach the target, `adaptive_priority` passes only on a round of more than 10
  -- seconds whose ratio does not reach the target (a ratio that is not a number does not), and fails
  -- only on a round of at least 5 seconds whose ratio does, or on one without a ratio: an error of the
  -- wait or of a percentile, or a panic.
  pub adaptive_priority-Judged :
      (estimate : ℕ → ℕ → ℕ → ℕ) (fuel : ℕ)
      → f.le (f.decimal 5 1) (f.decimal 0 0) ≡ false
      → Judged (adaptive_priority f t screen digest estimate fuel round)
  unfolding adaptive_priority
  adaptive_priority-Judged estimate fuel low = judge-Judged estimate _ low (
      converge-Ending (f.le (f.decimal 5 1)) (f.decimal 0 0) estimate (5 * 10 ^ 9) (10 * 10 ^ 9)
        metric_of (λ i iters. (round i iters).elapsed) fuel (omega arith))

  judge-unfinished :
      (o : Outcome F) → judge f t screen digest o ≡ unfinished → o ≡ Benchmark.out_of_fuel
  unfolding judge
  judge-unfinished (Benchmark.ok v) e = absurd (ground arith)
  judge-unfinished Benchmark.err e = absurd (cc)
  judge-unfinished Benchmark.out_of_fuel e = refl

  -- If every round with `enough` iterations takes more than 10 seconds, and none exactly 10 seconds,
  -- more than `enough` rounds of fuel give `adaptive_priority` a verdict; `enough` is at most half of the range of
  -- the counts.
  pub adaptive_priority_ends :
      (estimate : ℕ → ℕ → ℕ → ℕ) (fuel enough : ℕ)
      → enough ≤ u32_max / 2
      → ((i iters : ℕ)
          → ((round i iters).elapsed ≢ 10 * 10 ^ 9)
            × (enough ≤ iters → 10 * 10 ^ 9 < (round i iters).elapsed))
      → enough < fuel
      → adaptive_priority f t screen digest estimate fuel round ≢ unfinished
  unfolding adaptive_priority
  adaptive_priority_ends estimate fuel enough half long more e =
      case_ends (f.le (f.decimal 5 1)) (f.decimal 0 0) estimate (5 * 10 ^ 9) (10 * 10 ^ 9) metric_of
        (λ i iters. (round i iters).elapsed) fuel enough (omega arith) half long more
        (judge-unfinished _ e)
