-- ===== src/Cases/Latency/Tests.antt =====
-- `adaptive_priority` with rounds of a second for each iteration.
use schtest.Prelude.{ℕ, ◌+◌, ◌*◌, ◌/◌, ◌^◌, ◌≡◌, refl, true, some, [], ◌∷◌}
use schtest.Util.Stats.Estimates.{Value}
use schtest.Util.Stats.Visualize.Numbers.{unit, f, screen, digest}
use schtest.Workloads.Semaphore.{Semaphore, new}
use schtest.Workloads.Benchmark.{converge, next_iters, saturating_mul}
use schtest.Cases.Target.{measured_of}
use schtest.Util.Stats.Estimates.{percentile, estimates}
use schtest.Util.Stats.Distribution.{estimates_of}
use schtest.Util.Stats.Visualize.{visualize, byte_length}
use schtest.Workloads.Semaphore.{collect_wake_stats}
use schtest.Util.Stats.Reservoir.{add_all}
use schtest.Util.Stats.Distribution
use schtest.Cases.Target.{passes}
use schtest.Cases.Latency.{Seen, adaptive_priority}
use schtest.Cases.Latency.Judged.{Judged, adaptive_priority-Judged}

abbrev seconds : Value ℕ ℕ
seconds = record { to_f64 = λ n. n; of_f64 = λ x. x }

abbrev estimate : ℕ → ℕ → ℕ → ℕ
estimate iters min_time elapsed = (iters * min_time + elapsed) / elapsed

-- A semaphore with two wake times.
abbrev woken : ℕ → ℕ → Semaphore
woken a b = record (new 2 1024 0 1) {
  reservoir = record { samples = some a ∷ some b ∷ []; count = 2 };
}

abbrev round : ℕ → ℕ → Seen
round i iters = record {
  waited = true;
  fast_sem = woken unit (2 * unit);
  slow_sem = woken (4 * unit) (6 * unit);
  elapsed = iters * 10 ^ 9;
}

prefers_fast : adaptive_priority f seconds screen digest estimate 5 round ≡ passes
unfolding adaptive_priority converge next_iters saturating_mul measured_of visualize percentile
    estimates_of estimates byte_length collect_wake_stats add_all Distribution.new
prefers_fast = refl

adaptive_priority-Judged_example :
    Judged f seconds screen digest round
      (adaptive_priority f seconds screen digest estimate 5 round)
adaptive_priority-Judged_example =
    adaptive_priority-Judged f seconds screen digest round estimate 5 refl
