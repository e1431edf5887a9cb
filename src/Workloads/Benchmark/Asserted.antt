-- ===== src/Workloads/Benchmark/Asserted.antt =====
-- The macro `converge!` of src/workloads/benchmark.rs: `converge`, whose metric must reach the
-- threshold, or the caller panics.
use schtest.Prelude.{ℕ, Bool, some, if◌then◌else◌}
use schtest.Workloads.Benchmark.{Measured, Outcome, ok, err, out_of_fuel, converge}

-- The value of the macro, or its panic.
pub data Asserted (M : Type 0) : Type 0 where
  value : M → Asserted M
  panicked unfinished : Asserted M

unfoldable pub asserted : {M : Type 0} → (reaches : M → Bool) → Outcome M → Asserted M
asserted reaches (ok metric) = if reaches metric then value metric else panicked
asserted reaches err = panicked
asserted reaches out_of_fuel = unfinished

module _ {M : Type 0} (reaches : M → Bool) (zero_metric : M) (estimate : ℕ → ℕ → ℕ → ℕ) where
  unfoldable pub converge_macro : ℕ → (min_time max_time : ℕ) → (ℕ → ℕ → Measured M) → Asserted M
  unfolding asserted
  converge_macro fuel min_time max_time measure =
      asserted reaches
        (converge reaches zero_metric estimate fuel (some min_time) (some max_time) measure)
