-- ===== src/Util/Cgroups/Tests.antt =====
-- A process in a slice of its user, and one in the root.
use schtest.Prelude.{ℕ, ◌≡◌, refl, Bool, true, false, none, some, List, [], ◌∷◌}
use schtest.Prelude.Text.{codes, same_text}
use schtest.Prelude.Text.Forms.{is_free_of}
use schtest.Util.Cgroups.{create, after_last, is_absolute, ends_with_slash, join}
use schtest.Util.Cgroups.Tasks.{open_file, truncate, write, remove_dir_all, enter, drop}
use schtest.Util.Cgroups.Tasks.Moved.{moves, drop-moves}
use schtest.Util.Cgroups.Paths.{create-new_cgroup_path}

abbrev made : List ℕ → Bool
made path = true

at_root :
    create (some (some (codes "0::/") ∷ [])) (codes "17") made
    ≡ some (codes "/sys/fs/cgroup/schtest-17")
unfolding create same_text
at_root = refl

no_path : create (some (some (codes "0") ∷ none ∷ [])) (codes "17") made ≡ none
unfolding create
no_path = refl

create-new_cgroup_path_example :
    create (some (some (codes "0::/user.slice") ∷ [])) (codes "17") made
    ≡ some (codes "/user.slice/schtest-17")
unfolding is_free_of is_absolute ends_with_slash same_text
create-new_cgroup_path_example =
    create-new_cgroup_path (codes "0:") (codes "/user.slice") (codes "17") [] made refl refl refl

entered :
    enter (codes "/user.slice/schtest-17") (codes "40") true true
    ≡ (true, truncate (codes "/user.slice/schtest-17/tasks") ∷ write (codes "40") ∷ [])
unfolding enter
entered = refl

drop-moves_example :
    (drop (codes "/a/b") (some (some (codes "40") ∷ [])) true
      ≡ moves (codes "/a") (codes "/a/b") (codes "40" ∷ []))
    × (drop (codes "/a/b") (some (some (codes "40") ∷ none ∷ some (codes "41") ∷ [])) true
        ≡ moves (codes "/a") (codes "/a/b") (codes "40" ∷ []))
    × (drop (codes "/a/b") (some (some (codes "40") ∷ [])) false
        ≡ moves (codes "/a") (codes "/a/b") [])
    × (drop (codes "/a/b") none true
        ≡ open_file (join (codes "/a/b") (codes "tasks")) ∷ remove_dir_all (codes "/a/b") ∷ [])
unfolding is_free_of after_last
drop-moves_example =
    drop-moves 47 (codes "a") (codes "b") (codes "40" ∷ []) (some (codes "41") ∷ []) true refl
      ((λ e. cc), (λ e. cc)) ((λ e. cc), (λ e. cc))
