-- ===== src/Util/Cgroups/Tasks/Moved.antt =====
-- What dropping a cgroup of src/util/cgroups.rs does to the tasks in it.
use schtest.Prelude.{
  ℕ, ◌≡◌, ◌≢◌, unwrap_or, refl, ap, Bool, true, false, Option, none, some, List, [], ◌∷◌, ◌++◌, map,
  arith,
}
use schtest.Prelude.Text.{codes}
use schtest.Prelude.Text.Forms.{is_free_of}
use schtest.Util.Cgroups.{join, after_last}
use schtest.Util.Cgroups.Tasks.{
  FileCall, open_file, truncate, write, remove_dir_all, before_last, parent_path, move_lines,
  move_tasks, drop,
}

before_last-is_free_of : (d : ℕ) (s : List ℕ) → is_free_of d s ≡ true → before_last d s ≡ none
unfolding before_last is_free_of
before_last-is_free_of d [] h = refl
before_last-is_free_of d (c ∷ s) h = ground (arith, before_last-is_free_of d s)

before_last-append :
    (d : ℕ) (s t : List ℕ) → is_free_of d t ≡ true → before_last d (s ++ (d ∷ t)) ≡ some s
unfolding before_last
before_last-append d [] t h = ground (arith, before_last-is_free_of d t h)
before_last-append d (c ∷ s) t h = rw (before_last, before_last-append d s t h) refl

-- The parent of a path is what its last name was joined to.
parent_path-append :
    (c : ℕ) (s name : List ℕ)
    → is_free_of 47 name ≡ true
    → parent_path ((c ∷ s) ++ (47 ∷ name)) ≡ c ∷ s
unfolding parent_path
parent_path-append c s name h = rw (before_last-append 47 (c ∷ s) name h) refl

abbrev pub writes : List (List ℕ) → List FileCall
writes [] = []
writes (l ∷ ls) = write (l ++ codes "\n") ∷ writes ls

-- Lines that read, followed by the end of the file or by a line that does not.
move_lines-append :
    (ls : List (List ℕ)) (rest : List (Option (List ℕ)))
    → (move_lines (map some ls) ≡ writes ls)
      × (move_lines (map some ls ++ (none ∷ rest)) ≡ writes ls)
unfolding move_lines
move_lines-append [] rest = (refl, refl)
move_lines-append (l ∷ ls) rest =
    let (whole, part) = move_lines-append ls rest in
    (ap (λ w. write (l ++ codes "\n") ∷ w) whole, ap (λ w. write (l ++ codes "\n") ∷ w) part)

-- The calls for a cgroup with a name in a group, where some lines are moved.
abbrev pub moves : (group path : List ℕ) → List (List ℕ) → List FileCall
moves group path ls =
    open_file (join path (codes "tasks"))
    ∷ truncate (join group (codes "tasks"))
    ∷ (writes ls ++ (remove_dir_all path ∷ []))

drop_lines :
    (c : ℕ) (s name : List ℕ) (ls : List (List ℕ)) (lines : List (Option (List ℕ)))
    → is_free_of 47 name ≡ true
    → move_lines lines ≡ writes ls
    → drop ((c ∷ s) ++ (47 ∷ name)) (some lines) true ≡ moves (c ∷ s) ((c ∷ s) ++ (47 ∷ name)) ls
unfolding drop move_tasks
drop_lines c s name ls lines h e = rw (parent_path-append c s name h, e) refl

-- A name that `Path::parent` does not pass over.
abbrev pub IsName : List ℕ → Type 0
IsName name = (name ≢ []) × (name ≢ codes ".")

-- The last name of a path.
abbrev pub last_name : List ℕ → List ℕ
last_name path = unwrap_or (after_last 47 path) path

-- Dropping a cgroup that lies in a group under a name without a slash, where neither the name nor the
-- last one of the group is empty or a dot, writes the lines of its tasks
-- file, in order, to the tasks file of that group, up to the first line that cannot be read, and then
-- removes its directory, provided that both files open. If its own file does not open, nothing is
-- written; if that of the group does not, nothing either; the directory is removed all the same.
pub drop-moves :
    (c : ℕ) (s name : List ℕ) (ls : List (List ℕ)) (rest : List (Option (List ℕ))) (opens : Bool)
    → is_free_of 47 name ≡ true
    → IsName name
    → IsName (last_name (c ∷ s))
    → let group = c ∷ s in
      let path = group ++ (47 ∷ name) in
      (drop path (some (map some ls)) true ≡ moves group path ls)
      × (drop path (some (map some ls ++ (none ∷ rest))) true ≡ moves group path ls)
      × (drop path (some (map some ls)) false ≡ moves group path [])
      × (drop path none opens ≡ open_file (join path (codes "tasks")) ∷ remove_dir_all path ∷ [])
unfolding drop move_tasks
drop-moves c s name ls rest opens h named group_named =
    let (whole, part) = move_lines-append ls rest in
    (
      drop_lines c s name ls (map some ls) h whole,
      drop_lines c s name ls (map some ls ++ (none ∷ rest)) h part,
      rw (parent_path-append c s name h) refl,
      refl,
    )
