-- ===== src/Cases/Fairness/Tests.antt =====
-- `fairness` with rounds of a second for each iteration.
use schtest.Prelude.{
  ◌≢◌, ◌≤◌, ◌<◌, ℕ, ◌+◌, ◌*◌, ◌/◌, ◌^◌, ◌≡◌, refl, true, false, some, [], ◌∷◌, arith,
}
use schtest.Util.Stats.Estimates.{Value}
use schtest.Util.Stats.Visualize.Numbers.{unit, f, screen, digest}
use schtest.Workloads.Benchmark.{converge, next_iters, saturating_mul}
use schtest.Cases.Target.{measured_of}
use schtest.Util.Stats.Estimates.{percentile, estimates}
use schtest.Util.Stats.Distribution.{estimates_of, add, new}
use schtest.Util.Stats.Visualize.{visualize, byte_length}
use schtest.Cases.Target.{unfinished, passes}
use schtest.Cases.Fairness.{Seen, fairness}
use schtest.Cases.Fairness.Judged.{Judged, fairness-Judged, fairness_ends}

abbrev seconds : Value ℕ ℕ
seconds = record { to_f64 = λ n. n; of_f64 = λ x. x }

abbrev estimate : ℕ → ℕ → ℕ → ℕ
estimate iters min_time elapsed = (iters * min_time + elapsed) / elapsed

abbrev round : ℕ → ℕ → Seen
round i iters = record {
  waited = true;
  total_times = some (2 * unit) ∷ some (3 * unit) ∷ some (4 * unit) ∷ [];
  elapsed = iters * 10 ^ 9;
}

all_served : fairness f seconds screen digest (λ n. n * unit) estimate 5 round ≡ passes
unfolding fairness converge next_iters saturating_mul measured_of visualize percentile estimates_of
    estimates byte_length add new
all_served = refl

le_lt : (a b : ℕ) → f.le a b ≡ true → f.lt b a ≡ false
le_lt a b h = ground arith

fairness-Judged_example :
    Judged f seconds screen digest
      (λ n. n * unit)
      round
      (fairness f seconds screen digest (λ n. n * unit) estimate 5 round)
fairness-Judged_example =
    fairness-Judged f seconds screen digest (λ n. n * unit) round estimate 5 le_lt refl

-- Rounds of a nanosecond more, none of which takes exactly 10 seconds.
abbrev longer : ℕ → ℕ → Seen
longer i iters = record (round i iters) { elapsed = iters * 10 ^ 9 + 1 }

longer_apart :
    (i iters : ℕ)
    → ((longer i iters).elapsed ≢ 10 * 10 ^ 9)
      × (10 ≤ iters → 10 * 10 ^ 9 < (longer i iters).elapsed)
longer_apart i iters = (λ h. omega (arith, h), λ h. omega (arith, h))

fairness_ends_example :
    fairness f seconds screen digest (λ n. n * unit) estimate 11 longer ≢ unfinished
fairness_ends_example =
    fairness_ends f seconds screen digest (λ n. n * unit) longer estimate 11 10 (omega arith)
      longer_apart (omega arith)
