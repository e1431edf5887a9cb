-- ===== src/Main/Suite.antt =====
-- `make_trial`, `intern_string` and `run_tests` of src/main.rs: which of the registered cases run, under
-- which names, and which are ignored. The test framework (libtest_with) is not part of it: a trial is
-- what it is given, and running a test is a function from its arguments to its result.
pub mod Trials
use schtest.Prelude.{ℕ, Bool, true, false, ◌||◌, Option, none, some, List, [], ◌∷◌, if◌then◌else◌}
use schtest.Prelude.Text.{same_text}
use schtest.Workloads.Benchmark.Measure.{BenchArgs}

-- `Result<()>`, with the text of its error.
pub data Checked : Type 0 where
  ok : Checked
  err : List ℕ → Checked

-- The registered cases of src/cases/mod.rs, with what their functions return.
pub record Test : Type 0 where
  pub name : List ℕ
  pub test_fn : Checked
  pub constraints : Checked

pub record Benchmark (F : Type 0) : Type 0 where
  pub name : List ℕ
  pub test_fn : BenchArgs F → Checked
  pub constraints : Checked

-- The command line.
pub record Args (F : Type 0) : Type 0 where
  pub list : Bool
  pub filter : Option (List ℕ)
  pub benchmarks : Bool
  pub binary : List (List ℕ)
  pub sample_size : ℕ
  pub significance_level : F
  pub percentile : F

-- The arguments of the framework that are not at their defaults for every run.
pub record Arguments : Type 0 where
  pub test : Bool
  pub bench : Bool
  pub list : Bool
  pub filter : Option (List ℕ)
  pub include_ignored : Bool
  pub ignored : Bool
  pub exact : Bool
  pub test_threads : Option ℕ

pub record Trial : Type 0 where
  pub name : List ℕ
  pub test_fn : Checked
  pub ignored : Bool
  pub ignore_reason : Option (List ℕ)

abbrev reason : Checked → Bool × Option (List ℕ)
reason ok = (false, none)
reason (err message) = (true, some message)

pub make_trial : List ℕ → Checked → Checked → Trial
make_trial name test_fn constraints =
    let (ignore, ignore_reason) = reason constraints in
    record { name = name; test_fn = test_fn; ignored = ignore; ignore_reason = ignore_reason }

pub is_interned : List ℕ → List (List ℕ) → Bool
is_interned s [] = false
is_interned s (n ∷ names) = same_text s n || is_interned s names

-- The name and the set after it: `HashSet::insert`.
pub intern_string : List ℕ → List (List ℕ) → List ℕ × List (List ℕ)
unfolding is_interned
intern_string s names = (s, if is_interned s names then names else s ∷ names)

abbrev pub arguments : {F : Type 0} → Args F → Arguments
arguments args = record {
  test = true;
  bench = false;
  list = args.list;
  filter = args.filter;
  include_ignored = false;
  ignored = false;
  exact = false;
  test_threads = some 1;
}

module _ {F : Type 0} (args : Args F) where
  abbrev pub bench_args : List ℕ → BenchArgs F
  bench_args name = record {
    name = name;
    sample_size = args.sample_size;
    significance_level = args.significance_level;
    percentile = args.percentile;
  }

  -- The loops of `run_tests`, with the names that are interned so far.
  pub benchmark_trials : List (Benchmark F) → List (List ℕ) → List Trial × List (List ℕ)
  unfolding make_trial intern_string
  benchmark_trials [] names = ([], names)
  benchmark_trials (b ∷ bs) names =
      let (name, names') = intern_string b.name names in
      let (trials, names'') = benchmark_trials bs names' in
      (make_trial name (b.test_fn (bench_args name)) b.constraints ∷ trials, names'')

  pub test_trials : List Test → List (List ℕ) → List Trial × List (List ℕ)
  unfolding make_trial intern_string
  test_trials [] names = ([], names)
  test_trials (t ∷ ts) names =
      let (name, names') = intern_string t.name names in
      let (trials, names'') = test_trials ts names' in
      (make_trial name t.test_fn t.constraints ∷ trials, names'')

  -- What `run_tests` hands to the framework, from an empty set of names.
  unfoldable pub run_tests : List Test → List (Benchmark F) → Arguments × List Trial
  unfolding benchmark_trials test_trials
  run_tests tests benchmarks =
      let (trials, names) =
        if args.benchmarks then benchmark_trials benchmarks [] else test_trials tests [] in
      (arguments args, trials)
