-- ===== src/Workloads/Benchmark.antt =====
-- `converge` of src/workloads/benchmark.rs: measure with growing iteration counts until a metric
-- reaches its threshold. Durations are nanoseconds. Floating point is a parameter: the metrics with
-- their test `metric >= threshold` and their 0.0, and the estimate of the next iteration count.
-- `measure` and the clock are a function of the round and the iteration count.
pub mod Converge
pub mod Asserted
pub mod Measure
mod Tests
use schtest.Prelude.{
  ℕ, zero, suc, ◌+◌, ◌-◌, ◌*◌, ◌/◌, ◌^◌, Bool, true, false, ◌&&◌, Option, none, some, ltb, leb,
  ◌==◌, if◌then◌else◌, min, max,
}

abbrev pub u32_max : ℕ
u32_max = 2 ^ 32 - 1

unfoldable pub saturating_mul : ℕ → ℕ → ℕ
saturating_mul a b = min (a * b) u32_max

-- A call of `measure`: an error, or the metric and the time that the call took.
pub data Measured (M : Type 0) : Type 0 where
  failed : Measured M
  measured : (metric : M) (elapsed : ℕ) → Measured M

pub data Outcome (M : Type 0) : Type 0 where
  ok : M → Outcome M
  err : Outcome M
  out_of_fuel : Outcome M

-- The default times: `min_time.unwrap_or(1 s)` and `max_time.unwrap_or(10 s)`.
pub or_default : Option ℕ → ℕ → ℕ
or_default none d = d
or_default (some t) d = t

-- `estimate iters min_ns elapsed_ns` is `((iters as f64) * min_ns / elapsed_ns).ceil() as u32`.
module _ {M : Type 0} (reaches : M → Bool) (zero_metric : M) (estimate : ℕ → ℕ → ℕ → ℕ) where
  module _ (min_time max_time : ℕ) where
    unfoldable pub next_iters : ℕ → ℕ → ℕ
    unfolding saturating_mul
    next_iters iters elapsed =
        if ltb elapsed min_time && ltb iters (u32_max / 2)
        then (if elapsed == 0
            then saturating_mul iters 100
            else min (max (estimate iters min_time elapsed) (iters + 1)) (saturating_mul iters 100))
        else if ltb elapsed max_time && ltb iters (u32_max / 2)
        then saturating_mul iters 2
        else iters

    -- The end of a round: `go_on` is the rest of the loop, given the time that the round took.
    pub end_round : (ℕ → Outcome M) → Measured M → Outcome M
    end_round go_on failed = err
    end_round go_on (measured metric elapsed) =
        let rest = go_on elapsed in
        if reaches metric && leb min_time elapsed
        then ok metric
        else if ltb max_time elapsed
        then ok zero_metric
        else rest

    -- The loop from a round on.
    pub loop : (ℕ → ℕ → Measured M) → ℕ → ℕ → ℕ → Outcome M
    unfolding end_round
    loop measure zero round iters = out_of_fuel
    loop measure (suc fuel) round iters =
        end_round (λ elapsed. loop measure fuel (round + 1) (next_iters iters elapsed))
          (measure round iters)

  unfoldable pub converge : ℕ → Option ℕ → Option ℕ → (ℕ → ℕ → Measured M) → Outcome M
  unfolding loop or_default
  converge fuel min_time max_time measure =
      loop (or_default min_time (10 ^ 9)) (or_default max_time (10 * 10 ^ 9)) measure fuel 0 1
