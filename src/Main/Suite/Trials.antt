-- ===== src/Main/Suite/Trials.antt =====
-- Which trials `run_tests` of src/main.rs makes.
use schtest.Prelude.{ℕ, ◌≡◌, refl, true, false, none, some, List, [], ◌∷◌}
use schtest.Main.Suite.{
  Checked, ok, err, Test, Benchmark, Args, Trial, make_trial, intern_string, arguments,
  benchmark_trials, test_trials, run_tests,
}

-- A trial for a case with a name, a function and constraints: it is ignored exactly if these fail, for
-- the reason that they give.
pub data TrialOf (name : List ℕ) (test_fn : Checked) : Checked → Trial → Type 0 where
  runs :
      TrialOf name test_fn ok
        (record { name = name; test_fn = test_fn; ignored = false; ignore_reason = none })
  is_ignored :
      (message : List ℕ)
      → TrialOf name test_fn
          (err message)
          (record { name = name; test_fn = test_fn; ignored = true; ignore_reason = some message })

-- One trial for each case, in order.
abbrev pub Each : {A : Type 0} → (A → Trial → Type 0) → List A → List Trial → Type 0
Each R [] [] = Unit
Each R [] (t ∷ ts) = ⊥
Each R (a ∷ cases) [] = ⊥
Each R (a ∷ cases) (t ∷ ts) = R a t × Each R cases ts

make_trial-TrialOf :
    (name : List ℕ) (test_fn constraints : Checked)
    → TrialOf name test_fn constraints (make_trial name test_fn constraints)
unfolding make_trial
make_trial-TrialOf name test_fn ok = runs
make_trial-TrialOf name test_fn (err message) = is_ignored message

module _ {F : Type 0} (args : Args F) where
  -- The trial of a benchmark and of a test.
  abbrev pub BenchmarkTrial : Benchmark F → Trial → Type 0
  BenchmarkTrial b t =
      TrialOf b.name
        (b.test_fn (record {
          name = b.name;
          sample_size = args.sample_size;
          significance_level = args.significance_level;
          percentile = args.percentile;
        }))
        b.constraints t

  abbrev pub TestTrial : Test → Trial → Type 0
  TestTrial c t = TrialOf c.name c.test_fn c.constraints t

  benchmark_trials-Each :
      (bs : List (Benchmark F)) (names : List (List ℕ))
      → Each BenchmarkTrial bs (benchmark_trials args bs names).0
  unfolding benchmark_trials intern_string
  benchmark_trials-Each [] names = tt
  benchmark_trials-Each (b ∷ bs) names =
      (make_trial-TrialOf b.name _ b.constraints, benchmark_trials-Each bs _)

  test_trials-Each :
      (ts : List Test) (names : List (List ℕ)) → Each TestTrial ts (test_trials args ts names).0
  unfolding test_trials intern_string
  test_trials-Each [] names = tt
  test_trials-Each (t ∷ ts) names =
      (make_trial-TrialOf t.name t.test_fn t.constraints, test_trials-Each ts _)

  -- With the flag for benchmarks, the trials are those of the registered benchmarks, in order, each of
  -- them with its own name and the sample size, significance level and percentile of the command
  -- line; without it, those of the tests. A trial is ignored exactly if the constraints of its case
  -- fail, for the reason that they give. There is one thread, and the list flag and the filter are
  -- those of the command line.
  pub run_tests-Each :
      (tests : List Test) (benchmarks : List (Benchmark F))
      → ((run_tests args tests benchmarks).0 ≡ arguments args)
        × (args.benchmarks ≡ true
            → Each BenchmarkTrial benchmarks (run_tests args tests benchmarks).1)
        × (args.benchmarks ≡ false → Each TestTrial tests (run_tests args tests benchmarks).1)
  unfolding run_tests
  run_tests-Each tests benchmarks =
      (refl, λ h. rw h (benchmark_trials-Each benchmarks []), λ h. rw h (test_trials-Each tests []))
