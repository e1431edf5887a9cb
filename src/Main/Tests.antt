-- ===== src/Main/Tests.antt =====
-- A binary that installs its scheduler while the second round looks, or dies.
use schtest.Prelude.{◌≡◌, refl, true, false, none, some, [], ◌∷◌, ◌++◌}
use schtest.Prelude.Text.{codes, same_text, trim, is_whitespace}
use schtest.Util.Child.{err, killed_by}
use schtest.Util.Sched.Policy
use schtest.Util.Sched.Policy.{SchedExt, installed, content, missing}
use schtest.Main.{ready, failed, child_failed, run}
use schtest.Main.Ready.{run-IsIdle}

abbrev absent : SchedExt
absent = record { available = false; state = missing; ops = missing }

abbrev present : SchedExt
present = record {
  available = true;
  state = content (codes "enabled");
  ops = content (codes "fifo");
}

present_name : installed present ≡ Policy.ok (some (codes "fifo"))
unfolding installed same_text trim is_whitespace
present_name = refl

absent_name : installed absent ≡ Policy.ok none
unfolding installed
absent_name = refl

run-IsIdle_example :
    (run absent true (some (err (killed_by 9))) (
        (record { alive = true; sched_ext = absent } ∷ [])
        ++ (record { alive = true; sched_ext = present } ∷ []))
      ≡ ready (codes "fifo"))
    × (run absent true (some (err (killed_by 9))) (
          (record { alive = true; sched_ext = absent } ∷ [])
          ++ (record { alive = false; sched_ext = absent } ∷ []))
        ≡ failed (child_failed (killed_by 9)))
run-IsIdle_example =
    run-IsIdle absent (some (err (killed_by 9))) (record { alive = true; sched_ext = absent } ∷ [])
      [] (record { alive = true; sched_ext = present })
      (record { alive = false; sched_ext = absent }) (codes "fifo") absent_name
      ((refl, absent_name), tt) refl present_name refl
