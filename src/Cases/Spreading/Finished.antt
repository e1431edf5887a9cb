-- ===== src/Cases/Spreading/Finished.antt =====
-- How `spread_out` and `come_together` of src/cases/topology.rs end.
use schtest.Prelude.{ℕ, ◌*◌, ◌^◌, ◌≤◌, ◌<◌, ◌≡◌, ◌⊎◌, true, false, List, arith}
use schtest.Util.System.{Core, Node}
use schtest.Util.Stats.Estimates.{Floats}
use schtest.Workloads.Benchmark.{Outcome}
use schtest.Workloads.Benchmark.Asserted.{asserted, converge_macro}
use schtest.Cases.Topology.{Metric, ok, err, panicked, verdict}
use schtest.Cases.Target.Ending.{Ending, hit, gave_up, broke_off, undecided, converge-Ending}
use schtest.Cases.Spreading.{
  Spread, Together, Result, done, panics, unfinished, finish, spread_round, together_round,
  spread_out, come_together,
}

module _ {F : Type 0} (f : Floats F) (of_usize : ℕ → F) where
  abbrev pub target : F
  target = f.decimal 95 2

  -- The round that decides. There is no case for the error of the check after `converge!`.
  pub data Finished (metric : ℕ → ℕ → Metric F) (elapsed : ℕ → ℕ → ℕ) : Result → Type 0 where
    reached_target :
        (i iters : ℕ) (m : F)
        → metric i iters ≡ ok m
        → f.le target m ≡ true
        → 10 ^ 9 ≤ elapsed i iters
        → Finished metric elapsed done
    missed_target :
        (i iters : ℕ) (m : F)
        → metric i iters ≡ ok m
        → f.le target m ≡ false
        → 30 * 10 ^ 9 < elapsed i iters
        → Finished metric elapsed panics
    no_metric :
        (i iters : ℕ)
        → (metric i iters ≡ err) ⊎ (metric i iters ≡ panicked)
        → Finished metric elapsed panics
    open_end : Finished metric elapsed unfinished

  module _ (estimate : ℕ → ℕ → ℕ → ℕ) (fuel : ℕ)
      (le_lt : (a b : F) → f.le a b ≡ true → f.lt b a ≡ false)
      (low : f.le target (f.decimal 0 0) ≡ false) where
    finish-Finished :
        (metric : ℕ → ℕ → Metric F) (elapsed : ℕ → ℕ → ℕ) (o : Outcome F)
        → Ending (f.le target) (f.decimal 0 0) estimate (10 ^ 9) (30 * 10 ^ 9) metric elapsed o
        → Finished metric elapsed (finish f of_usize (asserted (f.le target) o))
    unfolding finish asserted verdict
    finish-Finished metric elapsed o (hit i iters m e good long) =
        rw (good, le_lt target m good) (reached_target i iters m e good long)
    finish-Finished metric elapsed o (gave_up i iters m e bad long) =
        rw low (missed_target i iters m e bad long)
    finish-Finished metric elapsed o (broke_off i iters e) = no_metric i iters e
    finish-Finished metric elapsed o undecided = open_end

    -- If a number is not below one that is at most as large, and 0.0 is not at the target,
    -- `spread_out` succeeds only on a round of at least a second whose metric reaches the target. It
    -- panics on a round of more than 30 seconds whose metric does not, or on one without a metric;
    -- the error after `converge!` is never returned.
    pub spread_out-Finished :
        (cores : List Core) (round : ℕ → ℕ → Spread)
        → Finished
            (λ i iters. spread_round f of_usize cores iters (round i iters))
            (λ i iters. (round i iters).elapsed)
            (spread_out f of_usize estimate fuel cores round)
    unfolding spread_out converge_macro
    spread_out-Finished cores round =
        let metric : ℕ → ℕ → Metric F =
          λ i iters. spread_round f of_usize cores iters (round i iters) in
        let elapsed : ℕ → ℕ → ℕ = λ i iters. (round i iters).elapsed in
        finish-Finished metric elapsed _ (
          converge-Ending (f.le target) (f.decimal 0 0) estimate (10 ^ 9) (30 * 10 ^ 9) metric
            elapsed fuel (omega arith))

    -- The same of `come_together`.
    pub come_together-Finished :
        (nodes : List Node) (round : ℕ → ℕ → Together)
        → Finished
            (λ i iters. together_round f of_usize nodes iters (round i iters))
            (λ i iters. (round i iters).elapsed)
            (come_together f of_usize estimate fuel nodes round)
    unfolding come_together converge_macro
    come_together-Finished nodes round =
        let metric : ℕ → ℕ → Metric F =
          λ i iters. together_round f of_usize nodes iters (round i iters) in
        let elapsed : ℕ → ℕ → ℕ = λ i iters. (round i iters).elapsed in
        finish-Finished metric elapsed _ (
          converge-Ending (f.le target) (f.decimal 0 0) estimate (10 ^ 9) (30 * 10 ^ 9) metric
            elapsed fuel (omega arith))
