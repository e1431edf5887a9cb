-- ===== src/Main/Whole/Ended.antt =====
-- How `main` of src/main.rs ends.
use schtest.Prelude.{ℕ, ◌≡◌, ◌≢◌, true, false, none, some, List, [], ◌∷◌, ◌⊎◌}
use schtest.Util.User.{is_root}
use schtest.Util.Child.{Child, ChildResult, pending}
use schtest.Util.Child.Drop.{drop}
use schtest.Util.Sched.Policy.{IsEnabled}
use schtest.Main
use schtest.Main.{StartError, Started, run}
use schtest.Main.Ready.{Appears}
use schtest.Main.Suite.{Test, Benchmark, Args, Arguments, Trial, run_tests}
use schtest.Main.Whole.{World, MainEnd, must_be_root, starting, not_started, dropping, exited}

module _ {F C : Type 0} (conclude : Arguments × List Trial → C) (w : World) (args : Args F)
    (tests : List Test) (benchmarks : List (Benchmark F)) where
  abbrev pub begin : Started
  begin = run w.before w.spawns w.exit w.rounds

  abbrev pub conclusion : C
  conclusion = conclude (run_tests args tests benchmarks)

  -- The scheduler of the binary was started: none was installed before, the binary was spawned, and a
  -- round saw its child alive and a scheduler installed, after rounds that saw the child alive and
  -- none.
  abbrev pub HasScheduler : Type 0
  HasScheduler = (¬ IsEnabled w.before) × (w.spawns ≡ true) × Appears w.rounds

  -- The drop of the child is blocked, in `kill` or in `wait`.
  abbrev pub IsBlocked : Type 0
  IsBlocked =
      (drop w.child w.killing w.waiting ≡ none)
      ⊎ ((pids : List ℕ) × (drop w.child w.killing w.waiting ≡ some (pids, pending)))

  -- The cases of `main`. Where the tests have run, the user is root, and the scheduler of a binary,
  -- if there is one, was seen installed. The exit comes after the child is reaped.
  pub data EndsAs : MainEnd C → Type 0 where
    no_root : is_root w.euid ≡ false → EndsAs must_be_root
    no_scheduler :
        (e : StartError)
        → is_root w.euid ≡ true
        → args.binary ≢ []
        → begin ≡ Main.failed e
        → EndsAs (not_started e)
    waits : is_root w.euid ≡ true → args.binary ≢ [] → begin ≡ Main.pending → EndsAs starting
    no_binary : is_root w.euid ≡ true → args.binary ≡ [] → EndsAs (exited none conclusion)
    is_dropping :
        is_root w.euid ≡ true
        → args.binary ≢ []
        → HasScheduler
        → IsBlocked
        → EndsAs (dropping conclusion)
    has_dropped :
        (pids : List ℕ) (r : ChildResult) (c : Child)
        → is_root w.euid ≡ true
        → args.binary ≢ []
        → HasScheduler
        → (pids ≡ []) ⊎ (pids ≡ w.child.pid ∷ [])
        → c.result ≡ some r
        → EndsAs (exited (some (pids, some r, c)) conclusion)
