-- ===== src/Main/Whole.antt =====
-- `main` of src/main.rs, after the parsing of the command line.
pub mod Ended
mod Tests
use schtest.Prelude.{ℕ, Bool, true, false, Option, none, some, List, [], ◌∷◌, if◌then◌else◌}
use schtest.Util.User.{is_root}
use schtest.Util.Child.{Child, ChildResult, ReadAnswer, WaitStatus, Waited, pending, returned}
use schtest.Util.Child.Drop.{drop}
use schtest.Util.Sched.Policy.{SchedExt}
use schtest.Main
use schtest.Main.{Round, StartError, Started, ready, run}
use schtest.Main.Suite.{Test, Benchmark, Args, Arguments, Trial, run_tests}

-- What `main` meets: the effective user, the framework before the start, whether the binary can be
-- spawned and as which child, what `wait` says if it is gone, the rounds of waiting for its
-- scheduler, and what the kernel answers when the child is dropped.
pub record World : Type 0 where
  pub euid : ℕ
  pub before : SchedExt
  pub spawns : Bool
  pub child : Child
  pub exit : Option ChildResult
  pub rounds : List Round
  pub killing : List ReadAnswer × List WaitStatus
  pub waiting : List ReadAnswer × List WaitStatus

-- The ends of `main`: its errors, the wait for the scheduler, after the tests a drop of the child that
-- is still blocked, in `kill` or in `wait`, and the exit by the conclusion of the framework, with the
-- pids that the drop has signalled, the result of its `wait`, and the child as it is then.
pub data MainEnd (C : Type 0) : Type 0 where
  must_be_root starting : MainEnd C
  not_started : StartError → MainEnd C
  dropping : C → MainEnd C
  exited : (dropped : Option (List ℕ × Option ChildResult × Child)) → C → MainEnd C

-- The drop of the child, and the exit once it has returned.
pub dropped : {C : Type 0} → C → Option (List ℕ × Waited) → MainEnd C
dropped conclusion none = dropping conclusion
dropped conclusion (some (pids, pending)) = dropping conclusion
dropped conclusion (some (pids, returned r c)) = exited (some (pids, r, c)) conclusion

module _ {F C : Type 0} (conclude : Arguments × List Trial → C) where
  -- The run of the tests, and what follows it.
  pub tested : World → Args F → List Test → List (Benchmark F) → Option Child → MainEnd C
  unfolding dropped
  tested w args tests benchmarks none = exited none (conclude (run_tests args tests benchmarks))
  tested w args tests benchmarks (some child) =
      dropped (conclude (run_tests args tests benchmarks)) (drop child w.killing w.waiting)

  pub started : World → Args F → List Test → List (Benchmark F) → Started → MainEnd C
  unfolding tested
  started w args tests benchmarks Main.pending = starting
  started w args tests benchmarks (ready name) = tested w args tests benchmarks (some w.child)
  started w args tests benchmarks (Main.failed e) = not_started e

  -- The start of the binary, if there is one.
  pub with_binary : World → Args F → List Test → List (Benchmark F) → List (List ℕ) → MainEnd C
  unfolding started tested
  with_binary w args tests benchmarks [] = tested w args tests benchmarks none
  with_binary w args tests benchmarks (arg ∷ rest) =
      started w args tests benchmarks (run w.before w.spawns w.exit w.rounds)

  pub main : World → Args F → List Test → List (Benchmark F) → MainEnd C
  unfolding with_binary
  main w args tests benchmarks =
      if is_root w.euid then with_binary w args tests benchmarks args.binary else must_be_root
