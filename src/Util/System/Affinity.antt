-- ===== src/Util/System/Affinity.antt =====
-- `CPUSet::run`: run a function with the thread pinned, and put the affinity back.
-- The kernel's part is how each of the three calls answers; a failed call changes nothing.
use schtest.Prelude.{◌≡◌, Bool, List, ◌∷◌, arith, if◌then◌else◌}
use schtest.Util.System.{Mask}

pub record Kernel : Type 0 where
  pub get_ok : Bool
  pub set_ok : Bool
  pub restore_ok : Bool

pub data RunResult : Type 0 where
  ok cannot_get cannot_set cannot_restore : RunResult

-- The thread: its affinity, and the masks that the function ran under.
pub record Thread : Type 0 where
  pub affinity : Mask
  pub ran_under : List Mask

pub run : Kernel → Mask → Thread → RunResult × Thread
run k target t =
    if k.get_ok
    then if k.set_ok
      then (let orig = t.affinity in
          let inside : Thread = record { affinity = target; ran_under = target ∷ t.ran_under } in
          if k.restore_ok
          then (ok, record inside { affinity = orig })
          else (cannot_restore, inside))
      else (cannot_set, t)
    else (cannot_get, t)

-- `migrate` runs nothing.
pub migrate : Kernel → Mask → Thread → RunResult × Thread
unfolding run
migrate k target t = let (r, t') = run k target t in (r, record t' { ran_under = t.ran_under })

abbrev pub Ran : Mask → Thread → RunResult × Thread → Type 0
Ran target t (ok, t') = (t'.affinity ≡ t.affinity) × (t'.ran_under ≡ target ∷ t.ran_under)
Ran target t (cannot_get, t') = t' ≡ t
Ran target t (cannot_set, t') = t' ≡ t
Ran target t (cannot_restore, t') = (t'.affinity ≡ target) × (t'.ran_under ≡ target ∷ t.ran_under)

-- Where `run` reports success, the function ran once, under the target, and the affinity is again
-- what it was; where one of the first two calls fails, nothing has changed and nothing ran; only
-- where the restoring call fails does the thread keep the target.
pub run-Ran : (k : Kernel) (target : Mask) (t : Thread) → Ran target t (run k target t)
unfolding run
run-Ran k target t = ground arith
