-- ===== src/Main.antt =====
-- `run` of src/main.rs: spawn the binary of a scheduler and wait until it is installed. A round is
-- what one turn of the loop sees: whether the child is alive, and the files of the framework.
pub mod Ready
pub mod Suite
pub mod Whole
mod Tests
use schtest.Prelude.{ℕ, Bool, true, false, Option, none, some, List, [], ◌∷◌, if◌then◌else◌}
use schtest.Util.Child.{ChildError, ChildResult, ok, err}
use schtest.Util.Sched.Policy
use schtest.Util.Sched.Policy.{SchedExt, Installed, installed}

pub record Round : Type 0 where
  pub alive : Bool
  pub sched_ext : SchedExt

pub data StartError : Type 0 where
  cannot_query cannot_spawn : StartError
  already_installed : (name : List ℕ) → StartError
  child_failed : ChildError → StartError
  child_gone : StartError

-- `pending` is a loop that needs another round.
pub data Started : Type 0 where
  pending : Started
  ready : (name : List ℕ) → Started
  failed : StartError → Started

-- The error for a child that is not alive, by what its `wait` returns.
abbrev pub gone : Option ChildResult → StartError
gone none = child_gone
gone (some ok) = child_gone
gone (some (err e)) = child_failed e

abbrev pub query : Started → Installed → Started
query rest Policy.err = failed cannot_query
query rest (Policy.ok none) = rest
query rest (Policy.ok (some name)) = ready name

pub watch : Option ChildResult → List Round → Started
watch exit [] = pending
watch exit (r ∷ rs) =
    let rest = query (watch exit rs) (installed r.sched_ext) in
    if r.alive then rest else failed (gone exit)

abbrev pub spawn : Started → Installed → Started
spawn rest Policy.err = failed cannot_query
spawn rest (Policy.ok none) = rest
spawn rest (Policy.ok (some name)) = failed (already_installed name)

pub run : SchedExt → Bool → Option ChildResult → List Round → Started
unfolding watch
run before spawns exit rounds =
    let rest = if spawns then watch exit rounds else failed cannot_spawn in
    spawn rest (installed before)
