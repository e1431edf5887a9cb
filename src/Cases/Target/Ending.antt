-- ===== src/Cases/Target/Ending.antt =====
-- How `converge` ends for the metric of a case.
use schtest.Prelude.{
  ◌≢◌, ◌/◌, ◌∙◌, ℕ, ◌≤◌, ◌<◌, ◌≡◌, refl, ◌⊎◌, inl, inr, Bool, true, false, some, arith,
}
use schtest.Workloads.Benchmark
use schtest.Workloads.Benchmark.{Measured, measured, Outcome, out_of_fuel, converge, u32_max}
use schtest.Workloads.Benchmark.Converge.{
  Ended, reached, too_long, error, unfinished, converge-Ended, converge_ends,
}
use schtest.Cases.Topology.{Metric, ok, err, panicked}
use schtest.Cases.Target.{measured_of}

module _ {F : Type 0} (reaches : F → Bool) (zero_metric : F) (estimate : ℕ → ℕ → ℕ → ℕ)
    (min_time max_time : ℕ) (metric : ℕ → ℕ → Metric F) (elapsed : ℕ → ℕ → ℕ) where
  -- The round that decided: one that was long enough and reached the target, one that was too long
  -- and did not, or one without a metric.
  pub data Ending : Outcome F → Type 0 where
    hit :
        (i iters : ℕ) (m : F)
        → metric i iters ≡ ok m
        → reaches m ≡ true
        → min_time ≤ elapsed i iters
        → Ending (Benchmark.ok m)
    gave_up :
        (i iters : ℕ) (m : F)
        → metric i iters ≡ ok m
        → reaches m ≡ false
        → max_time < elapsed i iters
        → Ending (Benchmark.ok zero_metric)
    broke_off :
        (i iters : ℕ) → (metric i iters ≡ err) ⊎ (metric i iters ≡ panicked) → Ending Benchmark.err
    undecided : Ending out_of_fuel

  abbrev pub measure : ℕ → ℕ → Measured F
  measure i iters = measured_of (metric i iters) (elapsed i iters)

  measured_of-ok :
      (m : Metric F) (r : F) (t s : ℕ) → measured_of m t ≡ measured r s → (m ≡ ok r) × (t ≡ s)
  unfolding measured_of
  measured_of-ok (ok m) r t s e = (ground arith, ground arith)
  measured_of-ok err r t s e = absurd (cc)
  measured_of-ok panicked r t s e = absurd (cc)

  measured_of-failed :
      (m : Metric F) (t : ℕ) → measured_of m t ≡ Benchmark.failed → (m ≡ err) ⊎ (m ≡ panicked)
  unfolding measured_of
  measured_of-failed (ok m) t e = absurd (cc)
  measured_of-failed err t e = inl refl
  measured_of-failed panicked t e = inr refl

  Ended-Ending :
      (o : Outcome F)
      → min_time ≤ max_time
      → Ended reaches zero_metric estimate min_time max_time measure o
      → Ending o
  Ended-Ending o times (reached i iters t m e good long) =
      let (found, same) = measured_of-ok (metric i iters) m (elapsed i iters) t e in
      hit i iters m found good (omega arith)
  Ended-Ending o times (too_long i iters t m e bad long) =
      let (found, same) = measured_of-ok (metric i iters) m (elapsed i iters) t e in
      gave_up i iters m found (ground arith) (omega arith)
  Ended-Ending o times (error i iters e) =
      broke_off i iters (measured_of-failed (metric i iters) (elapsed i iters) e)
  Ended-Ending o times unfinished = undecided

  pub converge-Ending :
      (fuel : ℕ)
      → min_time ≤ max_time
      → Ending (converge reaches zero_metric estimate fuel (some min_time) (some max_time) measure)
  converge-Ending fuel times =
      Ended-Ending _ times
        (converge-Ended reaches zero_metric estimate min_time max_time fuel measure)

  -- If every round with `enough` iterations takes more than `max_time`, and none exactly that long,
  -- more than `enough` rounds of fuel are enough.
  pub case_ends :
      (fuel enough : ℕ)
      → min_time ≤ max_time
      → enough ≤ u32_max / 2
      → ((i iters : ℕ)
          → (elapsed i iters ≢ max_time) × (enough ≤ iters → max_time < elapsed i iters))
      → enough < fuel
      → converge reaches zero_metric estimate fuel (some min_time) (some max_time) measure
        ≢ out_of_fuel
  case_ends fuel enough times half long more =
      converge_ends reaches zero_metric estimate min_time max_time fuel measure enough times half
        (λ i iters t m e.
          let (found, same) = measured_of-ok (metric i iters) m (elapsed i iters) t e in
          let (apart, above) = long i iters in (λ h. apart (same ∙ h), λ h. omega (arith, above h)))
        more
