-- ===== src/Cases/Fairness/Judged.antt =====
-- When `fairness` of src/cases/fairness.rs passes.
use schtest.Prelude.{◌≢◌, ◌/◌, refl, ℕ, ◌*◌, ◌^◌, ◌≤◌, ◌<◌, ◌≡◌, ◌⊎◌, true, false, arith}
use schtest.Util.Stats.Estimates.{Floats, Value}
use schtest.Util.Stats.Distribution.{Digest}
use schtest.Util.Stats.Visualize.{Screen}
use schtest.Workloads.Benchmark
use schtest.Workloads.Benchmark.{Outcome, u32_max}
use schtest.Cases.Topology.{Metric, ok, err, panicked}
use schtest.Cases.Target.{Verdict, passes, fails, unfinished}
use schtest.Cases.Target.Ending.{
  Ending, hit, gave_up, broke_off, undecided, converge-Ending, case_ends,
}
use schtest.Cases.Fairness.{Seen, metric, judge, fairness}

module _ {F D : Type 0} (f : Floats F) (t : Value F ℕ) (screen : Screen F ℕ) (digest : Digest F D)
    (of_usize : ℕ → F) (round : ℕ → ℕ → Seen) where
  abbrev pub metric_of : ℕ → ℕ → Metric F
  metric_of i iters = metric f t screen digest of_usize (round i iters)

  -- The round that decides on the verdict.
  pub data Judged : Verdict → Type 0 where
    fair :
        (i iters : ℕ) (r : F)
        → metric_of i iters ≡ ok r
        → f.le (f.decimal 6 1) r ≡ true
        → 5 * 10 ^ 9 ≤ (round i iters).elapsed
        → Judged passes
    unfair :
        (i iters : ℕ) (r : F)
        → metric_of i iters ≡ ok r
        → f.le (f.decimal 6 1) r ≡ false
        → 10 * 10 ^ 9 < (round i iters).elapsed
        → Judged fails
    no_metric :
        (i iters : ℕ) → (metric_of i iters ≡ err) ⊎ (metric_of i iters ≡ panicked) → Judged fails
    open_end : Judged unfinished

  judge-Judged :
      (estimate : ℕ → ℕ → ℕ → ℕ) (o : Outcome F)
      → ((a b : F) → f.le a b ≡ true → f.lt b a ≡ false)
      → f.lt (f.decimal 0 0) (f.decimal 6 1) ≡ true
      → Ending
          (f.le (f.decimal 6 1))
          (f.decimal 0 0)
          estimate
          (5 * 10 ^ 9)
          (10 * 10 ^ 9)
          metric_of
          (λ i iters. (round i iters).elapsed)
          o
      → Judged (judge f t screen digest of_usize o)
  unfolding judge
  judge-Judged estimate o le_lt low (hit i iters r e good long) =
      rw (le_lt (f.decimal 6 1) r good) (fair i iters r e good long)
  judge-Judged estimate o le_lt low (gave_up i iters r e bad long) =
      rw low (unfair i iters r e bad long)
  judge-Judged estimate o le_lt low (broke_off i iters e) = no_metric i iters e
  judge-Judged estimate o le_lt low undecided = open_end

  -- If a number is not below one that is at most as large, and 0.0 is below the target, `fairness`
  -- passes only on a round of at least 5 seconds whose metric reaches the target, and fails only on a
  -- round of more than 10 seconds whose metric does not, or on one without a metric.
  pub fairness-Judged :
      (estimate : ℕ → ℕ → ℕ → ℕ) (fuel : ℕ)
      → ((a b : F) → f.le a b ≡ true → f.lt b a ≡ false)
      → f.lt (f.decimal 0 0) (f.decimal 6 1) ≡ true
      → Judged (fairness f t screen digest of_usize estimate fuel round)
  unfolding fairness
  fairness-Judged estimate fuel le_lt low = judge-Judged estimate _ le_lt low (
      converge-Ending (f.le (f.decimal 6 1)) (f.decimal 0 0) estimate (5 * 10 ^ 9) (10 * 10 ^ 9)
        metric_of (λ i iters. (round i iters).elapsed) fuel (omega arith))

  judge-unfinished :
      (o : Outcome F) → judge f t screen digest of_usize o ≡ unfinished → o ≡ Benchmark.out_of_fuel
  unfolding judge
  judge-unfinished (Benchmark.ok v) e = absurd (ground arith)
  judge-unfinished Benchmark.err e = absurd (cc)
  judge-unfinished Benchmark.out_of_fuel e = refl

  -- If every round with `enough` iterations takes more than 10 seconds, and none exactly 10 seconds,
  -- more than `enough` rounds of fuel give `fairness` a verdict; `enough` is at most half of the range of
  -- the counts.
  pub fairness_ends :
      (estimate : ℕ → ℕ → ℕ → ℕ) (fuel enough : ℕ)
      → enough ≤ u32_max / 2
      → ((i iters : ℕ)
          → ((round i iters).elapsed ≢ 10 * 10 ^ 9)
            × (enough ≤ iters → 10 * 10 ^ 9 < (round i iters).elapsed))
      → enough < fuel
      → fairness f t screen digest of_usize estimate fuel round ≢ unfinished
  unfolding fairness
  fairness_ends estimate fuel enough half long more e =
      case_ends (f.le (f.decimal 6 1)) (f.decimal 0 0) estimate (5 * 10 ^ 9) (10 * 10 ^ 9) metric_of
        (λ i iters. (round i iters).elapsed) fuel enough (omega arith) half long more
        (judge-unfinished _ e)
