-- ===== src/Workloads/Benchmark/Converge.antt =====
-- What `converge` returns, and when it does.
use schtest.Prelude.{
  ℕ, zero, suc, ◌+◌, ◌*◌, ◌/◌, ◌≤◌, ◌<◌, ◌≡◌, ◌≢◌, inl, inr, refl, Bool, true, false, ◌&&◌, ltb,
  leb, arith, dec_lt, some, Bool-cases, ltb→lt,
}
use schtest.Workloads.Benchmark.{
  u32_max, saturating_mul, Measured, failed, measured, Outcome, ok, err, out_of_fuel, next_iters,
  end_round, loop, converge, or_default,
}

module _ {M : Type 0} (reaches : M → Bool) (zero_metric : M) (estimate : ℕ → ℕ → ℕ → ℕ)
    (min_time max_time : ℕ) where
  abbrev next : ℕ → ℕ → ℕ
  next = next_iters reaches zero_metric estimate min_time max_time

  -- From a count of at least 1 that is a u32, the iteration count never falls, grows by at most a
  -- factor of 100, and stays a u32, whatever the estimate says.
  pub next_iters_bounds :
      (iters elapsed : ℕ)
      → 0 < iters
      → iters ≤ u32_max
      → (iters ≤ next iters elapsed)
        × (next iters elapsed ≤ 100 * iters)
        × (next iters elapsed ≤ u32_max)
  unfolding next_iters saturating_mul
  next_iters_bounds iters elapsed pos word = ground arith

  -- The count grows after a round that was shorter than `max_time`, if `min_time` is no longer than
  -- that and the count is below half of the range.
  pub next_iters_grows :
      (iters elapsed : ℕ)
      → 0 < iters
      → min_time ≤ max_time
      → elapsed < max_time
      → iters < u32_max / 2
      → iters < next iters elapsed
  unfolding next_iters saturating_mul
  next_iters_grows iters elapsed pos times short half = ground arith

  -- What a finished loop can tell of the measurement that ended it.
  pub data Ended (measure : ℕ → ℕ → Measured M) : Outcome M → Type 0 where
    reached :
        (round iters elapsed : ℕ) (metric : M)
        → measure round iters ≡ measured metric elapsed
        → reaches metric ≡ true
        → min_time ≤ elapsed
        → Ended measure (ok metric)
    too_long :
        (round iters elapsed : ℕ) (metric : M)
        → measure round iters ≡ measured metric elapsed
        → (reaches metric && leb min_time elapsed) ≡ false
        → max_time < elapsed
        → Ended measure (ok zero_metric)
    error : (round iters : ℕ) → measure round iters ≡ failed → Ended measure err
    unfinished : Ended measure out_of_fuel

  end_round-Ended :
      (measure : ℕ → ℕ → Measured M) (round iters : ℕ) (go_on : ℕ → Outcome M) (m : Measured M)
      → measure round iters ≡ m
      → ((elapsed : ℕ) → Ended measure (go_on elapsed))
      → Ended measure (end_round reaches zero_metric estimate min_time max_time go_on m)
  unfolding end_round
  end_round-Ended measure round iters go_on failed e rest = error round iters e
  end_round-Ended measure round iters go_on (measured metric elapsed) e rest =
      elim (Bool-cases (reaches metric && leb min_time elapsed)) [
        | inl good ↦ rw good (reached round iters elapsed metric e (ground arith) (ground arith))
        | inr bad ↦ rw bad (elim (Bool-cases (ltb max_time elapsed)) [
          | inl long ↦ rw long (too_long round iters elapsed metric e bad (ltb→lt _ _ long))
          | inr short ↦ rw short (rest elapsed)
        ])
      ]

  -- The metric that the loop returns was measured in a round that took at least `min_time`, and
  -- reaches the threshold; or it is zero, and some round took more than `max_time` and was not such a
  -- round. An error is one of `measure`.
  pub loop-Ended :
      (measure : ℕ → ℕ → Measured M) (fuel round iters : ℕ)
      → Ended measure (loop reaches zero_metric estimate min_time max_time measure fuel round iters)
  unfolding loop
  loop-Ended measure zero round iters = unfinished
  loop-Ended measure (suc fuel) round iters =
      end_round-Ended measure round iters _ (measure round iters) refl
        (λ elapsed. loop-Ended measure fuel (round + 1) (next iters elapsed))

  end_round_ends :
      (go_on : ℕ → Outcome M) (m : Measured M) (enough iters : ℕ)
      → ((elapsed : ℕ) (metric : M)
          → m ≡ measured metric elapsed
          → (elapsed ≢ max_time) × (enough ≤ iters → max_time < elapsed))
      → ((elapsed : ℕ) → elapsed < max_time → iters < enough → go_on elapsed ≢ out_of_fuel)
      → end_round reaches zero_metric estimate min_time max_time go_on m ≢ out_of_fuel
  unfolding end_round
  end_round_ends go_on failed enough iters long later = ground arith
  end_round_ends go_on (measured metric elapsed) enough iters long later =
      let l = long elapsed metric refl in
      elim (dec_lt max_time elapsed) [
        | yes over ↦ ground arith
        | no under ↦ elim (dec_lt iters enough) [
          | yes few ↦ ground (arith, later elapsed (omega (arith, l.0)) few)
          | no many ↦ absurd (under (l.1 (omega arith)))
        ]
      ]

  -- If every round with at least `enough` iterations takes longer than `max_time`, and no round
  -- takes exactly that long, the loop ends: one unit of fuel for each iteration that is missing to
  -- `enough`, and one more. The minimum is at most the maximum time, `enough` at most half of the
  -- range, and the first count a u32 of at least 1.
  pub loop_ends :
      (measure : ℕ → ℕ → Measured M) (enough : ℕ)
      → min_time ≤ max_time
      → enough ≤ u32_max / 2
      → ((round iters elapsed : ℕ) (metric : M)
          → measure round iters ≡ measured metric elapsed
          → (elapsed ≢ max_time) × (enough ≤ iters → max_time < elapsed))
      → (fuel round iters : ℕ) → 0 < iters
      → iters ≤ u32_max
      → 0 < fuel
      → enough < iters + fuel
      → loop reaches zero_metric estimate min_time max_time measure fuel round iters ≢ out_of_fuel
  unfolding loop
  loop_ends measure enough times half long zero round iters pos word some_fuel fuel_ok =
      absurd (omega arith)
  loop_ends measure enough times half long (suc fuel) round iters pos word some_fuel fuel_ok =
      end_round_ends go_on (measure round iters) enough iters (long round iters)
        (λ elapsed short few.
          let b = next_iters_bounds iters elapsed pos word in
          let grows = next_iters_grows iters elapsed pos times short (omega arith) in
          loop_ends measure enough times half long fuel (round + 1) (next iters elapsed)
            (omega (arith, b.0)) b.2 (omega arith) (omega (arith, grows)))
    where
      go_on : ℕ → Outcome M
      go_on elapsed =
          loop reaches zero_metric estimate min_time max_time measure fuel (round + 1)
            (next iters elapsed)

  -- While every round takes at most `max_time` and misses the threshold, the loop goes on: no
  -- amount of fuel is enough, however much time has passed in all.
  pub loop_runs_on :
      (measure : ℕ → ℕ → Measured M)
      → ((round iters : ℕ)
          → (metric : M) × (elapsed : ℕ) × (measure round iters ≡ measured metric elapsed)
            × (reaches metric ≡ false)
            × (elapsed ≤ max_time))
      → (fuel round iters : ℕ)
      → loop reaches zero_metric estimate min_time max_time measure fuel round iters ≡ out_of_fuel
  unfolding loop
  loop_runs_on measure slow zero round iters = refl
  loop_runs_on measure slow (suc fuel) round iters =
      let (metric, elapsed, e, low, short) = slow round iters in
      rw e (ground (arith, loop_runs_on measure slow fuel (round + 1) (next iters elapsed)))

-- The same of `converge` with both of its times given.
pub converge-Ended :
    {M : Type 0} (reaches : M → Bool) (zero_metric : M) (estimate : ℕ → ℕ → ℕ → ℕ)
    (min_time max_time fuel : ℕ) (measure : ℕ → ℕ → Measured M)
    → Ended reaches zero_metric estimate min_time max_time measure
        (converge reaches zero_metric estimate fuel (some min_time) (some max_time) measure)
unfolding converge or_default
converge-Ended reaches zero_metric estimate min_time max_time fuel measure =
    loop-Ended reaches zero_metric estimate min_time max_time measure fuel 0 1

-- The same of `converge` with both of its times given, from its first round on.
pub converge_ends :
    {M : Type 0} (reaches : M → Bool) (zero_metric : M) (estimate : ℕ → ℕ → ℕ → ℕ)
    (min_time max_time fuel : ℕ) (measure : ℕ → ℕ → Measured M) (enough : ℕ)
    → min_time ≤ max_time
    → enough ≤ u32_max / 2
    → ((round iters elapsed : ℕ) (metric : M)
        → measure round iters ≡ measured metric elapsed
        → (elapsed ≢ max_time) × (enough ≤ iters → max_time < elapsed))
    → enough < fuel
    → converge reaches zero_metric estimate fuel (some min_time) (some max_time) measure
      ≢ out_of_fuel
unfolding converge or_default
converge_ends reaches zero_metric estimate min_time max_time fuel measure enough times half long
      more =
    loop_ends reaches zero_metric estimate min_time max_time measure enough times half long fuel 0 1
      (omega arith) (omega arith) (omega arith) (omega arith)
