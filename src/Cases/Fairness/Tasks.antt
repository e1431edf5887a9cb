-- ===== src/Cases/Fairness/Tasks.antt =====
-- How many processes `fairness` of src/cases/fairness.rs starts, and where.
use schtest.Prelude.{
  ◌*◌, ◌≡◌, refl, List, [], ◌∷◌, map, length, replicate, length-append, length-map,
  length-replicate, arith,
}
use schtest.Util.System.{Core, System, hyperthread_mask, count_threads, logical_cpus}
use schtest.Cases.Fairness.{pinned, floating, pinned_tasks, tasks}

length-pinned_tasks : (cs : List Core) → length (pinned_tasks cs) ≡ count_threads cs
unfolding pinned_tasks count_threads
length-pinned_tasks [] = refl
length-pinned_tasks (c ∷ cs) = omega (
  arith,
  length-append (map (λ h. pinned (hyperthread_mask h)) c.hyperthreads) (pinned_tasks cs),
  length-map (λ h. pinned (hyperthread_mask h)) c.hyperthreads,
  length-pinned_tasks cs,
)

-- There are as many tasks that float as tasks that are pinned: two for each logical CPU in all.
pub length-tasks : (s : System) → length (tasks s) ≡ 2 * logical_cpus s
unfolding tasks logical_cpus
length-tasks s = omega (
  arith,
  length-append (pinned_tasks s.all_cores) (replicate (logical_cpus s) floating),
  length-replicate (logical_cpus s) floating,
  length-pinned_tasks s.all_cores,
)
