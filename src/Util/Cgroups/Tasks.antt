-- ===== src/Util/Cgroups/Tasks.antt =====
-- `CgroupInfo::enter` and `Drop for Cgroup` of src/util/cgroups.rs, as traces of the files that they
-- touch. What can be opened and what the tasks file reads as are arguments.
pub mod Moved
use schtest.Prelude.{
  ℕ, Bool, true, false, Option, none, some, List, [], ◌∷◌, ◌++◌, ◌==◌, if◌then◌else◌, map,
}
use schtest.Prelude.Text.{codes}
use schtest.Util.Cgroups.{join}

-- A file that is opened or truncated, a text that is written to the last one, a directory that is
-- removed with what is in it.
pub data FileCall : Type 0 where
  open_file truncate write remove_dir_all : List ℕ → FileCall

-- `enter`: whether it succeeds, and its calls; the pid is given by its digits.
unfoldable pub enter : (path pid : List ℕ) → (creates writes : Bool) → Bool × List FileCall
unfolding join
enter path pid creates writes =
    let tasks_path = join path (codes "tasks") in
    if creates
    then (writes, truncate tasks_path ∷ write pid ∷ [])
    else (false, truncate tasks_path ∷ [])

-- The text before the last occurrence of a character.
pub before_last : ℕ → List ℕ → Option (List ℕ)
before_last d [] = none
before_last d (c ∷ s) = elim (before_last d s) [
  | some t ↦ some (c ∷ t)
  | none ↦ if c == d then some [] else none
]

-- `path.parent().unwrap_or("/")`, for a path whose last two names are neither empty nor `.`:
-- `Path::parent` passes over such names, and this does not.
pub parent_path : List ℕ → List ℕ
unfolding before_last
parent_path p = elim (before_last 47 p) [ none ↦ [] | some [] ↦ codes "/" | some (c ∷ s) ↦ c ∷ s ]

-- The lines up to the first that cannot be read, each written with a newline; a write that fails is
-- passed over.
pub move_lines : List (Option (List ℕ)) → List FileCall
move_lines [] = []
move_lines (none ∷ ls) = []
move_lines (some l ∷ ls) = write (l ++ codes "\n") ∷ move_lines ls

-- The lines of the tasks file, if it opens, go to that of the parent, if that opens.
pub move_tasks : List ℕ → Option (List (Option (List ℕ))) → (parent_opens : Bool) → List FileCall
unfolding join parent_path move_lines
move_tasks path tasks parent_opens = open_file (join path (codes "tasks")) ∷ elim tasks [
  | none ↦ []
  | some ls ↦
      truncate (join (parent_path path) (codes "tasks"))
      ∷ (if parent_opens then move_lines ls else [])
]

pub drop : List ℕ → Option (List (Option (List ℕ))) → (parent_opens : Bool) → List FileCall
unfolding move_tasks
drop [] tasks parent_opens = []
drop (c ∷ path) tasks parent_opens =
    move_tasks (c ∷ path) tasks parent_opens ++ (remove_dir_all (c ∷ path) ∷ [])
