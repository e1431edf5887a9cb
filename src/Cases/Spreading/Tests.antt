-- ===== src/Cases/Spreading/Tests.antt =====
-- `spread_out` and `come_together` on two cores, with rounds of a second for each iteration.
use schtest.Prelude.{ℕ, ◌+◌, ◌*◌, ◌/◌, ◌^◌, ◌≡◌, refl, true, false, some, List, [], ◌∷◌, arith}
use schtest.Prelude.Int.{pos}
use schtest.Util.System.{Core, Node}
use schtest.Util.Stats.Visualize.Numbers.{unit, f}
use schtest.Workloads.Benchmark.{converge, next_iters, saturating_mul}
use schtest.Cases.Target.{measured_of}
use schtest.Workloads.Benchmark.Asserted.{converge_macro}
use schtest.Cases.Topology.{spread_metric, together_metric, verdict}
use schtest.Cases.Spreading.{Spread, Together, done, spread_out, come_together, spread_round}
use schtest.Cases.Spreading.Finished.{Finished, spread_out-Finished}

abbrev estimate : ℕ → ℕ → ℕ → ℕ
estimate iters min_time elapsed = (iters * min_time + elapsed) / elapsed

abbrev cores : List Core
cores =
    record { id = pos 0; hyperthreads = record { id = 0 } ∷ [] }
    ∷ record { id = pos 1; hyperthreads = record { id = 1 } ∷ [] }
    ∷ []

abbrev nodes : List Node
nodes = record { id = pos 0; complexes = record { id = pos 0; cores = cores } ∷ [] } ∷ []

abbrev spread : ℕ → ℕ → Spread
spread i iters = record {
  before = some 0 ∷ [];
  after = some 0 ∷ [];
  seen = λ look. 0 ∷ 1 ∷ [];
  waited = true;
  elapsed = iters * 10 ^ 8;
}

abbrev together : ℕ → ℕ → Together
together i iters = record {
  seen = λ look. (0 ∷ 1 ∷ []) ∷ [];
  waited = true;
  elapsed = iters * 10 ^ 8;
}

all_used : spread_out f (λ n. n * unit) estimate 5 cores spread ≡ done
unfolding spread_out converge_macro converge next_iters saturating_mul measured_of spread_metric
    spread_round verdict
all_used = refl

all_together : come_together f (λ n. n * unit) estimate 5 nodes together ≡ done
unfolding come_together converge_macro converge next_iters saturating_mul measured_of
    together_metric verdict
all_together = refl

le_lt : (a b : ℕ) → f.le a b ≡ true → f.lt b a ≡ false
le_lt a b h = ground arith

spread_out-Finished_example :
    Finished f
      (λ n. n * unit)
      (λ i iters. spread_round f (λ n. n * unit) cores iters (spread i iters))
      (λ i iters. (spread i iters).elapsed)
      (spread_out f (λ n. n * unit) estimate 5 cores spread)
spread_out-Finished_example =
    spread_out-Finished f (λ n. n * unit) estimate 5 le_lt refl cores spread
