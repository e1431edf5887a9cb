-- ===== src/Workloads/Benchmark/Tests.antt =====
-- `converge` over workloads that take 1000 ns for each iteration, or no time at all.
use schtest.Prelude.{ℕ, ◌+◌, ◌*◌, ◌/◌, ◌≤◌, ◌<◌, ◌≡◌, ◌≢◌, refl, Bool, some, arith, leb}
use schtest.Workloads.Benchmark.{Measured, measured, ok, next_iters, converge, saturating_mul}

-- Metrics are percentages, the threshold is 95.
abbrev reaches : ℕ → Bool
reaches metric = leb 95 metric

abbrev estimate : ℕ → ℕ → ℕ → ℕ
estimate iters min_time elapsed = (iters * min_time + elapsed) / elapsed

-- the metric is the number of iterations
abbrev linear : ℕ → ℕ → Measured ℕ
linear round iters = measured iters (iters * 1000)

abbrev never : ℕ → ℕ → Measured ℕ
never round iters = measured 0 (iters * 1000)

abbrev instant : ℕ → ℕ → Measured ℕ
instant round iters = measured 0 0

converges : converge reaches 0 estimate 9 (some 5000) (some 1000000) linear ≡ ok 96
unfolding converge next_iters saturating_mul
converges = refl

gives_up : converge reaches 0 estimate 9 (some 5000) (some 10000) never ≡ ok 0
unfolding converge next_iters saturating_mul
gives_up = refl

never_long :
    (round iters elapsed metric : ℕ)
    → never round iters ≡ measured metric elapsed
    → (elapsed ≢ 8500) × (9 ≤ iters → 8500 < elapsed)
never_long round iters elapsed metric e =
    let time : iters * 1000 ≡ elapsed = ground arith in (omega arith, λ h. omega arith)
