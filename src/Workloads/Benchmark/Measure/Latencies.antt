-- ===== src/Workloads/Benchmark/Measure/Latencies.antt =====
-- The samples of a latency benchmark of `measure` of src/workloads/benchmark.rs.
use schtest.Prelude.{
  ℕ, ◌+◌, ◌≡◌, sym, Option, none, some, List, [], ◌∷◌, unwrap_or, inl, inr, Option-cases,
}
use mathlib.Core.Option.{some-injective, none-ne-some}
use schtest.Util.Stats.Estimates.{Floats, Value, percentile}
use schtest.Util.Stats.Distribution.{Digest, estimates_of}
use schtest.Util.Stats.Visualize.{Screen, visualize}
use schtest.Workloads.Benchmark.Measure.{
  latency, count, BenchArgs, Reply, failed, ran, as_u32, latency_sample, latency_samples,
}
use schtest.Workloads.Benchmark.Measure.Calls.{Each, Among, here, later}

module _ {F D : Type 0} (f : Floats F) (t : Value F ℕ) (screen : Screen F ℕ) (digest : Digest F D)
    (of_u64 : ℕ → F) (from_secs_f64 : F → Option ℕ) (args : BenchArgs F)
    (call : ℕ → ℕ → Reply D) where
  -- The latency of a distribution times a number of iterations.
  abbrev pub scaled : D → ℕ → F
  scaled dist iters =
      f.mul (t.to_f64 (unwrap_or (percentile f t (estimates_of f digest t dist) args.percentile) 0))
        (of_u64 iters)

  -- The time that a sample reports of what the workload returned; the estimates of a latency were
  -- drawn before.
  pub data Sampled (iters time : ℕ) : Reply D → Type 0 where
    of_latency :
        (dist : D) (elapsed : ℕ) (line : List ℕ)
        → visualize f t screen (estimates_of f digest t dist) none ≡ some line
        → from_secs_f64 (scaled dist iters) ≡ some time
        → Sampled iters time (ran (latency dist) elapsed)
    of_count : (v elapsed : ℕ) → time ≡ 0 → Sampled iters time (ran (count v) elapsed)

  -- What makes a sample panic: an error, estimates that cannot be drawn, and a time that is not a
  -- duration.
  pub data Broken (iters : ℕ) : Reply D → Type 0 where
    by_error : Broken iters failed
    by_drawing :
        (dist : D) (elapsed : ℕ)
        → visualize f t screen (estimates_of f digest t dist) none ≡ none
        → Broken iters (ran (latency dist) elapsed)
    by_time :
        (dist : D) (elapsed : ℕ)
        → from_secs_f64 (scaled dist iters) ≡ none
        → Broken iters (ran (latency dist) elapsed)

  abbrev sample : ℕ → Reply D → Option ℕ
  sample = latency_sample f t screen digest of_u64 from_secs_f64 args

  abbrev pub samples : ℕ → List ℕ → Option (List ℕ)
  samples = latency_samples f t screen digest of_u64 from_secs_f64 args call

  sample-Sampled :
      (iters time : ℕ) (r : Reply D) → sample iters r ≡ some time → Sampled iters time r
  unfolding latency_sample
  sample-Sampled iters time failed e = absurd (none-ne-some _ e)
  sample-Sampled iters time (ran (count v) elapsed) e =
      of_count v elapsed (sym (some-injective _ _ e))
  sample-Sampled iters time (ran (latency dist) elapsed) e =
      elim (Option-cases (visualize f t screen (estimates_of f digest t dist) none)) [
        | inl stuck ↦ let g = rw (latency_sample, stuck) at e in absurd (none-ne-some _ g)
        | inr (line, drawn) ↦
            let g = rw (latency_sample, drawn) at e in of_latency dist elapsed line drawn g
      ]

  sample-Broken : (iters : ℕ) (r : Reply D) → sample iters r ≡ none → Broken iters r
  unfolding latency_sample
  sample-Broken iters failed e = by_error
  sample-Broken iters (ran (count v) elapsed) e = absurd (none-ne-some _ (sym e))
  sample-Broken iters (ran (latency dist) elapsed) e =
      elim (Option-cases (visualize f t screen (estimates_of f digest t dist) none)) [
        | inl stuck ↦ by_drawing dist elapsed stuck
        | inr (line, drawn) ↦ let g = rw (latency_sample, drawn) at e in by_time dist elapsed g
      ]

  -- The samples of a latency benchmark, or a call that made one panic.
  pub data Samples (i : ℕ) (counts : List ℕ) : Option (List ℕ) → Type 0 where
    all_sampled :
        (times : List ℕ)
        → Each call (λ iters r time. Sampled iters time r) i counts times
        → Samples i counts (some times)
    some_broken :
        (j c : ℕ) → Among call i counts j c → Broken c (call j (as_u32 c)) → Samples i counts none

  Samples-cons :
      (i iters time : ℕ) (counts : List ℕ) (o : Option (List ℕ))
      → Sampled iters time (call i (as_u32 iters))
      → Samples (i + 1) counts o
      → Samples i (iters ∷ counts) (elim o [ none ↦ none | some times ↦ some (time ∷ times) ])
  Samples-cons i iters time counts o first (all_sampled times rest) =
      all_sampled (time ∷ times) (first, rest)
  Samples-cons i iters time counts o first (some_broken j c among bad) =
      some_broken j c (later i iters counts j c among) bad

  pub samples-Samples : (i : ℕ) (counts : List ℕ) → Samples i counts (samples i counts)
  unfolding latency_samples
  samples-Samples i [] = all_sampled [] tt
  samples-Samples i (iters ∷ counts) = elim (Option-cases (sample iters (call i (as_u32 iters)))) [
    | inl bad ↦
        rw (latency_samples, bad)
          (some_broken i iters (here i iters counts) (sample-Broken iters _ bad))
    | inr (time, good) ↦
        rw (latency_samples, good)
          (Samples-cons i iters time counts (samples (i + 1) counts)
            (sample-Sampled iters time _ good) (samples-Samples (i + 1) counts))
  ]
