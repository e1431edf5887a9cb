-- ===== src/Util/Child/Spawn.antt =====
-- `spawn` of src/util/child.rs: the command runs under a supervisor, which is a child of the caller
-- and waits for the command. The answers of the kernel and the texts of its errors are arguments.
pub mod Passed
mod Tests
use schtest.Prelude.{
  ℕ, Bool, true, false, ◌||◌, Option, none, some, List, [], ◌∷◌, ◌++◌, if◌then◌else◌, ◌⊎◌, inl, inr,
}
use schtest.Prelude.Text.{codes}
use schtest.Util.MemFd.{has_nul}
use schtest.Util.User.{is_root}
use schtest.Util.Child.{
  Child, ChildError, reported, exited_with, killed_by, ChildResult, ok, err, Returned, success,
  failure, ReadAnswer, WaitStatus, Waited, pending, returned, wait,
}

-- What `spawn` does in the caller: an error, the panic of an argument with a zero byte, or a call of
-- `run`, in a new PID namespace or not.
pub data Spawned : Type 0 where
  no_command panicked : Spawned
  runs : (newpid : Bool) → Spawned

pub any_nul : List (List ℕ) → Bool
any_nul [] = false
any_nul (arg ∷ args) = has_nul arg || any_nul args

pub spawn : (euid : ℕ) → List (List ℕ) → Spawned
unfolding any_nul
spawn euid [] = no_command
spawn euid (arg ∷ args) = if any_nul (arg ∷ args) then panicked else runs (is_root euid)

-- The function of the inner process: `execvp` only returns with an error.
pub exec_failed : (error : List ℕ) → Returned
exec_failed error = failure (codes "Failed to exec: " ++ error)

-- What the supervisor meets: the errors of its two calls of prctl and of `run`, or the child, and what
-- `wait` reads for that.
pub record Supervision : Type 0 where
  pub set_pdeathsig : Option (List ℕ)
  pub set_child_subreaper : Option (List ℕ)
  pub run : Child ⊎ List ℕ
  pub reads : List ReadAnswer
  pub statuses : List WaitStatus

pub data Supervised : Type 0 where
  blocked unwrapped_none : Supervised
  returns : Returned → Supervised

-- The texts of an exit code and of a signal are parameters, and `String::from_utf8_lossy`, which makes
-- a text of the bytes of the pipe.
module _ (code_text signal_text : ℕ → List ℕ) (from_utf8_lossy : List ℕ → List ℕ) where
  -- The text of the error that `wait` makes of an end of the child.
  pub message : ChildError → List ℕ
  message (reported m) = codes "Child process error: " ++ from_utf8_lossy m
  message (exited_with code) = codes "Child process exited with code " ++ code_text code
  message (killed_by signal) = codes "Child process was killed by signal " ++ signal_text signal

  pub to_returned : ChildResult → Returned
  unfolding message
  to_returned ok = success
  to_returned (err e) = failure (message e)

  -- `wait(true, true).unwrap()`
  pub unwrap : Waited → Supervised
  unfolding to_returned
  unwrap pending = blocked
  unwrap (returned none c) = unwrapped_none
  unwrap (returned (some r) c) = returns (to_returned r)

  pub await_command : Child ⊎ List ℕ → List ReadAnswer → List WaitStatus → Supervised
  unfolding unwrap
  await_command (inr error) reads statuses = returns (failure error)
  await_command (inl child) reads statuses = unwrap (wait true child reads statuses)

  pub supervise : Supervision → Supervised
  unfolding await_command
  supervise s = elim s.set_pdeathsig [
    | some error ↦ returns (failure (codes "Failed to set death signal: " ++ error))
    | none ↦ elim s.set_child_subreaper [
      | some error ↦ returns (failure (codes "Failed to set child subreaper: " ++ error))
      | none ↦ await_command s.run s.reads s.statuses
    ]
  ]
