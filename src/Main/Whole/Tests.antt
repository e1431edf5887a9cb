-- ===== src/Main/Whole/Tests.antt =====
-- A run with the binary of a scheduler and two cases, one of which has failing constraints.
use schtest.Prelude.{ℕ, ◌≡◌, refl, true, false, none, some, List, [], ◌∷◌, ◌+◌, if◌then◌else◌}
use schtest.Prelude.Text.{codes}
use schtest.Util.Child.{signaled, still_alive}
use schtest.Util.Sched.Policy.{SchedExt, content, missing}
use schtest.Main.Suite.{ok, err, Test, Args, Arguments, Trial, run_tests}
use schtest.Main.Whole.{World}

abbrev args : Args ℕ
args = record {
  list = false;
  filter = none;
  benchmarks = false;
  binary = codes "scx_simple" ∷ [];
  sample_size = 10;
  significance_level = 5;
  percentile = 50;
}

abbrev tests : List Test
tests =
    record { name = codes "fairness"; test_fn = ok; constraints = ok }
    ∷ record { name = codes "come_together"; test_fn = ok; constraints = err (codes "one node") }
    ∷ []

abbrev present : SchedExt
present = record {
  available = true;
  state = content (codes "enabled");
  ops = content (codes "simple");
}

abbrev world : World
world = record {
  euid = 0;
  before = record { available = false; state = missing; ops = missing };
  spawns = true;
  child = record {
    pid = 40;
    notification = record { read_fd = some 5; write_fd = none; closed = 6 ∷ [] };
    result = none;
  };
  exit = none;
  rounds = record { alive = true; sched_ext = present } ∷ [];
  killing = ([], still_alive ∷ []);
  waiting = ([], signaled 40 9 ∷ []);
}

-- The conclusion is the number of trials that are not ignored.
abbrev to_run : List Trial → ℕ
to_run [] = 0
to_run (t ∷ ts) = (if t.ignored then 0 else 1) + to_run ts

abbrev conclude : Arguments × List Trial → ℕ
conclude (a, trials) = to_run trials

one_runs : conclude (run_tests args tests []) ≡ 1
unfolding run_tests
one_runs = refl
