-- ===== src/Util/Cgroups.antt =====
-- src/util/cgroups.rs: the path of a new cgroup. A path is a text; the file /proc/self/cgroup is
-- what its lines read as, the random number is given by its digits.
pub mod Paths
pub mod Tasks
mod Tests
use schtest.Prelude.{
  ℕ, Bool, true, false, Option, none, some, List, [], ◌∷◌, ◌++◌, ◌==◌, if◌then◌else◌,
}
use schtest.Prelude.Text.{codes, same_text}

-- `PathBuf::join`: an absolute path replaces what it is joined to.
pub is_absolute : List ℕ → Bool
is_absolute [] = false
is_absolute (c ∷ s) = c == 47

pub ends_with_slash : List ℕ → Bool
ends_with_slash [] = true
ends_with_slash (c ∷ []) = c == 47
ends_with_slash (c ∷ d ∷ s) = ends_with_slash (d ∷ s)

pub join : List ℕ → List ℕ → List ℕ
unfolding is_absolute ends_with_slash
join p q = if is_absolute q then q else if ends_with_slash p then p ++ q else p ++ (47 ∷ q)

-- The text after the last occurrence of a character.
pub after_last : ℕ → List ℕ → Option (List ℕ)
after_last d [] = none
after_last d (c ∷ s) = elim (after_last d s) [
  | some t ↦ some t
  | none ↦ if c == d then some s else none
]

-- The loop over the lines; `none` is a line that cannot be read. The outer `none` is an error, the
-- inner one a file without a path.
pub current_cgroup : List (Option (List ℕ)) → Option (Option (List ℕ))
unfolding after_last
current_cgroup [] = some none
current_cgroup (none ∷ ls) = none
current_cgroup (some l ∷ ls) = elim (after_last 58 l) [
  | some path ↦ some (some path)
  | none ↦ current_cgroup ls
]

pub new_cgroup_path : List ℕ → List ℕ → List ℕ
unfolding join
new_cgroup_path current name =
    if same_text current (codes "/")
    then join (codes "/sys/fs/cgroup") name
    else join (join (codes "/sys/fs/cgroup") current) name

-- `Cgroup::create`: the path of the directory that was made. `mkdir` is the answer of
-- `create_dir_all`; an outer `none` of the file is that it could not be opened.
pub create : Option (List (Option (List ℕ))) → List ℕ → (List ℕ → Bool) → Option (List ℕ)
unfolding current_cgroup new_cgroup_path
create none digits mkdir = none
create (some ls) digits mkdir = elim (current_cgroup ls) [
  | none ↦ none
  | some none ↦ none
  | some (some current) ↦
      let path = new_cgroup_path current (codes "schtest-" ++ digits) in
      if mkdir path then some path else none
]
