-- ===== src/Util/Cgroups/Paths.antt =====
-- Where `Cgroup::create` of src/util/cgroups.rs puts the new cgroup.
use schtest.Prelude.{
  ℕ, Bool-cases, inl, inr, ◌≡◌, refl, Bool, true, false, Option, none, some, List, [], ◌∷◌, ◌++◌,
  if◌then◌else◌, arith, ap, ◌∙◌,
}
use schtest.Prelude.Text.{codes, same_text}
use schtest.Prelude.Text.Forms.{is_free_of}
use schtest.Util.Cgroups.{
  is_absolute, ends_with_slash, join, after_last, current_cgroup, new_cgroup_path, create,
}

after_last-is_free_of : (d : ℕ) (s : List ℕ) → is_free_of d s ≡ true → after_last d s ≡ none
unfolding after_last is_free_of
after_last-is_free_of d [] h = refl
after_last-is_free_of d (c ∷ s) h = ground (arith, after_last-is_free_of d s)

after_last-append :
    (d : ℕ) (s t : List ℕ) → is_free_of d t ≡ true → after_last d (s ++ (d ∷ t)) ≡ some t
unfolding after_last
after_last-append d [] t h = ground (arith, after_last-is_free_of d t h)
after_last-append d (c ∷ s) t h = ground (arith, after_last-append d s t h)

join-mount :
    (digits : List ℕ)
    → join (codes "/sys/fs/cgroup") (codes "schtest-" ++ digits)
      ≡ codes "/sys/fs/cgroup/schtest-" ++ digits
unfolding join is_absolute ends_with_slash
join-mount digits = refl

join-is_absolute : (p q : List ℕ) → is_absolute q ≡ true → join p q ≡ q
unfolding join
join-is_absolute p q h = rw (h, join) refl

join-relative :
    (path digits : List ℕ)
    → ends_with_slash path ≡ false
    → join path (codes "schtest-" ++ digits) ≡ path ++ (codes "/schtest-" ++ digits)
unfolding join is_absolute
join-relative path digits h = rw (h, join) refl

new_cgroup_path-eq :
    (path digits : List ℕ)
    → is_absolute path ≡ true
    → ends_with_slash path ≡ same_text path (codes "/")
    → new_cgroup_path path (codes "schtest-" ++ digits) ≡ (
        if same_text path (codes "/")
        then codes "/sys/fs/cgroup/schtest-" ++ digits
        else path ++ (codes "/schtest-" ++ digits))
unfolding new_cgroup_path
new_cgroup_path-eq path digits h k = elim (Bool-cases (same_text path (codes "/"))) [
  | inl e ↦ rw (e, new_cgroup_path) (join-mount digits)
  | inr e ↦
      rw (e, new_cgroup_path)
        (ap (λ p. join p (codes "schtest-" ++ digits))
            (join-is_absolute (codes "/sys/fs/cgroup") path h)
          ∙ join-relative path digits (k ∙ e))
]

-- If the first line of /proc/self/cgroup has a colon, and after the last one an absolute path that
-- ends with a slash only if it is the root, the new cgroup is /sys/fs/cgroup/schtest-N for the root,
-- and else lies directly under the path that was read, without the mount point before it.
pub create-new_cgroup_path :
    (prefix path digits : List ℕ) (ls : List (Option (List ℕ))) (mkdir : List ℕ → Bool)
    → is_free_of 58 path ≡ true
    → is_absolute path ≡ true
    → ends_with_slash path ≡ same_text path (codes "/")
    → create (some (some (prefix ++ (58 ∷ path)) ∷ ls)) digits mkdir ≡ (
        let new_path =
          if same_text path (codes "/")
          then codes "/sys/fs/cgroup/schtest-" ++ digits
          else path ++ (codes "/schtest-" ++ digits) in
        if mkdir new_path then some new_path else none)
unfolding create same_text
create-new_cgroup_path prefix path digits ls mkdir free h k =
    rw
      (
        after_last-append 58 prefix path free,
        new_cgroup_path-eq path digits h k,
        create,
        current_cgroup,
      )
      refl
