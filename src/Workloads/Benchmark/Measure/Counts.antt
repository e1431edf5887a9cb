-- ===== src/Workloads/Benchmark/Measure/Counts.antt =====
-- The samples of a count benchmark of `measure` of src/workloads/benchmark.rs.
use schtest.Prelude.{
  ℕ, ◌+◌, ◌<◌, ◌≡◌, subst, sym, ◌∙◌, Option, none, some, List, [], ◌∷◌, arith, inl, inr,
}
use schtest.Util.Stats.Estimates.{Floats, Value}
use schtest.Util.Stats.Distribution.{Digest}
use schtest.Util.Stats.Visualize.{Screen}
use schtest.Workloads.Benchmark.Measure.{
  BenchResult, latency, count, BenchArgs, Reply, failed, ran, as_u32, last_of, count_samples,
}
use schtest.Workloads.Benchmark.Measure.Calls.{
  Each, Among, here, later, Among-cases, Among-le, Reply-cases,
}

module _ {F D : Type 0} (f : Floats F) (t : Value F ℕ) (screen : Screen F ℕ) (digest : Digest F D)
    (of_u64 : ℕ → F) (from_secs_f64 : F → Option ℕ) (args : BenchArgs F)
    (call : ℕ → ℕ → Reply D) where
  abbrev pub IsCount : Reply D → Type 0
  IsCount failed = ⊥
  IsCount (ran (latency dist) elapsed) = ⊥
  IsCount (ran (count v) elapsed) = Unit

  -- The count of the last call among those from one on that returned a count, or what was there.
  pub data LastCount (i : ℕ) (counts : List ℕ) (start : Option ℕ) : Option ℕ → Type 0 where
    no_count :
        ((j c : ℕ) → Among call i counts j c → ¬ IsCount (call j (as_u32 c)))
        → LastCount i counts start start
    from_call :
        (j c v elapsed : ℕ)
        → Among call i counts j c
        → call j (as_u32 c) ≡ ran (count v) elapsed
        → ((k d : ℕ) → Among call i counts k d → j < k → ¬ IsCount (call k (as_u32 d)))
        → LastCount i counts start (some v)

  LastCount-cons :
      (i iters elapsed : ℕ) (counts : List ℕ) (r : BenchResult D) (start last : Option ℕ)
      → call i (as_u32 iters) ≡ ran r elapsed
      → LastCount (i + 1) counts (last_of f t screen digest of_u64 from_secs_f64 r start) last
      → LastCount i (iters ∷ counts) start last
  unfolding last_of
  LastCount-cons i iters elapsed counts (latency dist) start last e (no_count none_later) =
      no_count (λ j c among. elim (Among-cases call i iters counts j c among) [
        | inl (same, d) ↦ subst (λ r. ¬ IsCount r) (sym e ∙ d) (λ u. u)
        | inr rest ↦ none_later j c rest
      ])
  LastCount-cons i iters elapsed counts (count v) start last e (no_count none_later) =
      from_call i iters v elapsed (here i iters counts) e (λ k d among above.
        elim (Among-cases call i iters counts k d among) [
          | inl (same, _) ↦ absurd (omega arith)
          | inr rest ↦ none_later k d rest
        ])
  LastCount-cons i iters elapsed counts r start last e (from_call j c v t among e' none_later) =
      from_call j c v t (later i iters counts j c among) e' (λ k d among' above.
        elim (Among-cases call i iters counts k d among') [
          | inl (same, _) ↦ absurd (omega (arith, Among-le call (i + 1) counts j c among))
          | inr rest ↦ none_later k d rest above
        ])

  -- The times of a count benchmark with the throughput at its end, or a call that failed.
  pub data Counts (i : ℕ) (counts : List ℕ) (start : Option ℕ)
      : Option (List ℕ × Option ℕ) → Type 0 where
    all_counted :
        (times : List ℕ) (last : Option ℕ)
        → Each call (λ iters r time. (b : BenchResult D) × (r ≡ ran b time)) i counts times
        → LastCount i counts start last
        → Counts i counts start (some (times, last))
    some_failed :
        (j c : ℕ)
        → Among call i counts j c
        → call j (as_u32 c) ≡ failed
        → Counts i counts start none

  abbrev next_start : BenchResult D → Option ℕ → Option ℕ
  next_start = last_of f t screen digest of_u64 from_secs_f64

  abbrev pub count_all : ℕ → List ℕ → Option ℕ → Option (List ℕ × Option ℕ)
  count_all = count_samples f t screen digest of_u64 from_secs_f64 call

  Counts-cons :
      (i iters elapsed : ℕ) (counts : List ℕ) (r : BenchResult D) (start : Option ℕ)
      (o : Option (List ℕ × Option ℕ))
      → call i (as_u32 iters) ≡ ran r elapsed
      → Counts (i + 1) counts (next_start r start) o
      → Counts i
          (iters ∷ counts)
          start
          (elim o [ none ↦ none | some (times, after) ↦ some (elapsed ∷ times, after) ])
  Counts-cons i iters elapsed counts r start o e (all_counted times last each ends) =
      all_counted (elapsed ∷ times) last ((r, e), each)
        (LastCount-cons i iters elapsed counts r start last e ends)
  Counts-cons i iters elapsed counts r start o e (some_failed j c among bad) =
      some_failed j c (later i iters counts j c among) bad

  pub count_all-Counts :
      (i : ℕ) (counts : List ℕ) (start : Option ℕ)
      → Counts i counts start (count_all i counts start)
  unfolding count_samples
  count_all-Counts i [] start =
      all_counted [] start tt (no_count (λ j c among. no_call i j c among))
    where
      no_call : (i j c : ℕ) → Among call i [] j c → ¬ IsCount (call j (as_u32 c))
      no_call i j c among = elim among [ ]
  count_all-Counts i (iters ∷ counts) start = elim (Reply-cases call (call i (as_u32 iters))) [
    | inl bad ↦ rw (count_samples, bad) (some_failed i iters (here i iters counts) bad)
    | inr (r, elapsed, good) ↦
        rw (count_samples, good)
          (Counts-cons i iters elapsed counts r start
            (count_all (i + 1) counts (next_start r start)) good
            (count_all-Counts (i + 1) counts (next_start r start)))
  ]
