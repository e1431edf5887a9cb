-- ===== src/Cases/Spreading.antt =====
-- `spread_out` and `come_together` of src/cases/topology.rs as a whole: their metrics in the macro
-- `converge!`, and the check that follows it.
mod Tests
pub mod Finished
use schtest.Prelude.{ℕ, ◌*◌, ◌^◌, Bool, true, false, Option, none, some, List, if◌then◌else◌}
use schtest.Util.System.{Core, Node}
use schtest.Util.Stats.Estimates.{Floats}
use schtest.Workloads.Benchmark.Asserted
use schtest.Workloads.Benchmark.Asserted.{Asserted, value, converge_macro}
use schtest.Cases.Topology.{Metric, ok, err, panicked, spread_metric, together_metric, verdict}
use schtest.Cases.Target.{measured_of}

-- What a round of `spread_out` sees: the counters of migrations before and after, the CPUs of the
-- spinners in each look, whether the wait succeeded, and the time that the round took.
pub record Spread : Type 0 where
  pub before : List (Option ℕ)
  pub after : List (Option ℕ)
  pub seen : ℕ → List ℕ
  pub waited : Bool
  pub elapsed : ℕ

-- The same of `come_together`, with the CPUs by process.
pub record Together : Type 0 where
  pub seen : ℕ → List (List ℕ)
  pub waited : Bool
  pub elapsed : ℕ

pub data Result : Type 0 where
  done failed panics unfinished : Result

module _ {F : Type 0} (f : Floats F) (of_usize : ℕ → F) where
  pub of_option : Option F → Metric F
  of_option none = err
  of_option (some m) = ok m

  -- The check after the macro.
  pub finish : Asserted F → Result
  finish (value final_value) = if verdict f.lt final_value (f.decimal 95 2) then done else failed
  finish Asserted.panicked = panics
  finish Asserted.unfinished = unfinished

  abbrev pub spread_round : List Core → ℕ → Spread → Metric F
  unfolding of_option
  spread_round cores iters r =
      of_option (spread_metric of_usize f.div cores r.before r.after r.seen r.waited iters)

  abbrev pub together_round : List Node → ℕ → Together → Metric F
  together_round nodes iters r = together_metric of_usize f.div f.sub nodes r.seen r.waited iters

  pub spread_out :
      (estimate : ℕ → ℕ → ℕ → ℕ) → (fuel : ℕ) → List Core → (round : ℕ → ℕ → Spread) → Result
  unfolding finish
  spread_out estimate fuel cores round = finish (
      converge_macro (f.le (f.decimal 95 2)) (f.decimal 0 0) estimate fuel (10 ^ 9) (30 * 10 ^ 9)
        (λ i iters. measured_of (spread_round cores iters (round i iters)) (round i iters).elapsed))

  pub come_together :
      (estimate : ℕ → ℕ → ℕ → ℕ) → (fuel : ℕ) → List Node → (round : ℕ → ℕ → Together) → Result
  unfolding finish
  come_together estimate fuel nodes round = finish (
      converge_macro (f.le (f.decimal 95 2)) (f.decimal 0 0) estimate fuel (10 ^ 9) (30 * 10 ^ 9)
        (λ i iters.
          measured_of (together_round nodes iters (round i iters)) (round i iters).elapsed))
