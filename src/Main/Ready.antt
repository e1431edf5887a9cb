-- ===== src/Main/Ready.antt =====
-- When the loop ends, and with what.
use schtest.Prelude.{
  ℕ, ◌≡◌, refl, Bool, true, false, Option, none, some, List, [], ◌∷◌, ◌++◌, All, ap, ◌∙◌, ◌⊎◌, inl,
  inr, Bool-cases,
}
use schtest.Util.Child.{ChildResult}
use schtest.Util.Sched.Policy
use schtest.Util.Sched.Policy.{
  SchedExt, Installed, installed, IsEnabled, installed-IsEnabled, installed-not_IsEnabled,
}
use schtest.Main
use schtest.Main.{Round, Started, pending, ready, failed, gone, query, watch, spawn, run}

-- A round that sees the child alive and no scheduler.
abbrev pub IsIdle : Round → Type 0
IsIdle r = (r.alive ≡ true) × (installed r.sched_ext ≡ Policy.ok none)

watch-IsIdle :
    (exit : Option ChildResult) (before rs : List Round)
    → All IsIdle before
    → watch exit (before ++ rs) ≡ watch exit rs
unfolding watch
watch-IsIdle exit [] rs h = refl
watch-IsIdle exit (r ∷ before) rs ((lives, free), h) =
    rw (lives, free, watch) (watch-IsIdle exit before rs h)

-- If no scheduler is installed at first and the binary can be spawned, then after any number of
-- rounds that see the child alive and no scheduler, a round that sees it alive and a scheduler ends
-- the loop with its name, and one that sees it dead with the error of the child.
pub run-IsIdle :
    (first : SchedExt) (exit : Option ChildResult) (before after : List Round) (r d : Round)
    (name : List ℕ)
    → installed first ≡ Policy.ok none
    → All IsIdle before
    → r.alive ≡ true
    → installed r.sched_ext ≡ Policy.ok (some name)
    → d.alive ≡ false
    → (run first true exit (before ++ (r ∷ after)) ≡ ready name)
      × (run first true exit (before ++ (d ∷ after)) ≡ failed (gone exit))
unfolding run watch
run-IsIdle first exit before after r d name free idle lives up dead = (
  ap (λ i. spawn (watch exit (before ++ (r ∷ after))) i) free
      ∙ watch-IsIdle exit before (r ∷ after) idle
      ∙ rw (lives, up, watch) refl,
  ap (λ i. spawn (watch exit (before ++ (d ∷ after))) i) free
      ∙ watch-IsIdle exit before (d ∷ after) idle
      ∙ rw (dead, watch) refl,
)

-- A round that sees the child alive and no scheduler, in what the files hold.
abbrev pub StillWaits : Round → Type 0
StillWaits r = (r.alive ≡ true) × (¬ IsEnabled r.sched_ext)

-- A round that sees the child alive and a scheduler installed; the rounds before it have seen the
-- child alive and none.
pub record Appears (rounds : List Round) : Type 0 where
  pub earlier : List Round
  pub round : Round
  pub later : List Round
  pub rounds_are : rounds ≡ earlier ++ (round ∷ later)
  pub all_wait : All StillWaits earlier
  pub lives : round.alive ≡ true
  pub enabled : IsEnabled round.sched_ext

query_ready :
    (rest : Started) (i : Installed) (name : List ℕ)
    → query rest i ≡ ready name
    → ((i ≡ Policy.ok none) × (rest ≡ ready name)) ⊎ (i ≡ Policy.ok (some name))
query_ready rest Policy.err name e = absurd (cc)
query_ready rest (Policy.ok none) name e = inl (refl, e)
query_ready rest (Policy.ok (some n)) name e = inr (cc)

watch-Appears :
    (exit : Option ChildResult) (rounds : List Round) (name : List ℕ)
    → watch exit rounds ≡ ready name
    → Appears rounds
unfolding watch
watch-Appears exit [] name e = absurd (cc)
watch-Appears exit (r ∷ rs) name e = elim (Bool-cases r.alive) [
  | inr dead ↦ let g = rw (watch, dead) at e in absurd (cc)
  | inl lives ↦
      elim (query_ready (watch exit rs) (installed r.sched_ext) name (rw (watch, lives) at e)) [
        | inr up ↦ record {
          earlier = [];
          round = r;
          later = rs;
          rounds_are = refl;
          all_wait = tt;
          lives = lives;
          enabled = installed-IsEnabled r.sched_ext name up;
        }
        | inl (free, rest) ↦
            let a = watch-Appears exit rs name rest in
            record {
              earlier = r ∷ a.earlier;
              round = a.round;
              later = a.later;
              rounds_are = ap (λ t. r ∷ t) a.rounds_are;
              all_wait = ((lives, installed-not_IsEnabled r.sched_ext free), a.all_wait);
              lives = a.lives;
              enabled = a.enabled;
            }
      ]
]

spawn_ready :
    (rest : Started) (i : Installed) (name : List ℕ)
    → spawn rest i ≡ ready name
    → (i ≡ Policy.ok none) × (rest ≡ ready name)
spawn_ready rest Policy.err name e = absurd (cc)
spawn_ready rest (Policy.ok none) name e = (refl, e)
spawn_ready rest (Policy.ok (some n)) name e = absurd (cc)

-- `run` only succeeds if no scheduler was installed before, the binary could be spawned, and a
-- scheduler appeared while its child was alive.
pub run-Appears :
    (before : SchedExt) (spawns : Bool) (exit : Option ChildResult) (rounds : List Round)
    (name : List ℕ)
    → run before spawns exit rounds ≡ ready name
    → (¬ IsEnabled before) × (spawns ≡ true) × Appears rounds
unfolding run
run-Appears before false exit rounds name e =
    let s = spawn_ready _ (installed before) name e in absurd (unspawned s.1)
  where
    unspawned : failed Main.cannot_spawn ≡ ready name → ⊥
    unspawned c = cc
run-Appears before true exit rounds name e =
    let s = spawn_ready _ (installed before) name e in
    (installed-not_IsEnabled before s.0, refl, watch-Appears exit rounds name s.1)
