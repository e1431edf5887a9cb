-- ===== src/Cases/Basic/Bench/Tests.antt =====
-- The names of the benchmarks, and a round in which each semaphore has a wake time.
use schtest.Prelude.{ℕ, ◌≡◌, refl, true, false, some, [], ◌∷◌}
use schtest.Prelude.Text.{codes}
use schtest.Util.Stats.Estimates.{Value}
use schtest.Util.Stats.Reservoir.{add_all}
use schtest.Util.Stats.Distribution
use schtest.Util.Stats.Visualize.Numbers.{f, digest}
use schtest.Workloads.Semaphore.{Semaphore, new, collect_wake_stats}
use schtest.Workloads.Benchmark.Measure.{latency, failed, ran, measured_call}
use schtest.Cases.Basic.Bench.{names, measured_round}

abbrev seconds : Value ℕ ℕ
seconds = record { to_f64 = λ n. n; of_f64 = λ x. x }

abbrev woken : ℕ → Semaphore
woken a = record (new 256 1024 0 1) { reservoir = record { samples = some a ∷ []; count = 1 } }

five_names :
    names
    ≡ codes "ping_pong/SameHyperthread"
      ∷ codes "ping_pong/SameCore"
      ∷ codes "ping_pong/SameComplex"
      ∷ codes "ping_pong/SameNode"
      ∷ codes "ping_pong/Unpinned"
      ∷ []
unfolding names
five_names = refl

both_collected :
    measured_round f seconds digest true (woken 3) (woken 5) 9 ≡ some (ran (latency (3 ∷ 5 ∷ [])) 9)
unfolding measured_round collect_wake_stats add_all Distribution.new measured_call
both_collected = refl

wait_failed : measured_round f seconds digest false (woken 3) (woken 5) 9 ≡ some failed
unfolding measured_round
wait_failed = refl
