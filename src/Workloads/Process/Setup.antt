-- ===== src/Workloads/Process/Setup.antt =====
-- src/workloads/process.rs: the specification of a process, and what its child does before its
-- function runs. What the kernel answers to each of the calls is given.
use schtest.Prelude.{
  ℕ, ◌≡◌, refl, Bool, true, Option, none, some, List, [], ◌∷◌, ◌++◌, if◌then◌else◌, ap, Bool-cases,
  inl, inr,
}
use schtest.Prelude.Int.{ℤ, pos}
use schtest.Util.Sched.Policy.{SchedExt, set_scheduler}
use schtest.Util.Sched.Policy as Policy

pub record Spec : Type 0 where
  pub priority : Option ℤ
  pub name : Option (List ℕ)

pub default : Spec
default = record { priority = none; name = none }

pub with_priority : ℤ → Spec → Spec
with_priority priority spec = record spec { priority = some priority }

pub with_name : List ℕ → Spec → Spec
with_name name spec = record spec { name = some name }

-- Which calls succeed.
pub record Answers : Type 0 where
  pub prctl : Bool
  pub scheduled : Bool
  pub entered : Bool

pub data Call : Type 0 where
  set_name : List ℕ → Call
  schedule : Policy.Call → Call
  enter : Call
  func : Call

-- The end of the child: an error before its function runs, or that of the function.
pub data End : Type 0 where
  name_failed schedule_failed enter_failed : End
  ran : End

abbrev pub priority_of : Option Spec → ℤ
priority_of none = pos 0
priority_of (some spec) = elim spec.priority [ none ↦ pos 0 | some p ↦ p ]

abbrev pub name_of : Option Spec → Option (List ℕ)
name_of none = none
name_of (some spec) = spec.name

-- From the scheduling call on, with the policy SCHED_EXT, which has the number 7.
pub prepare : Answers → SchedExt → ℤ → List Call × End
prepare k fs priority =
    let call = schedule (set_scheduler fs (pos 7) priority) in
    if k.scheduled
    then if k.entered then (call ∷ enter ∷ func ∷ [], ran) else (call ∷ enter ∷ [], enter_failed)
    else (call ∷ [], schedule_failed)

pub set_up : Answers → SchedExt → ℤ → Option (List ℕ) → List Call × End
unfolding prepare
set_up k fs priority none = prepare k fs priority
set_up k fs priority (some name) =
    if k.prctl
    then (let (calls, end) = prepare k fs priority in (set_name name ∷ calls, end))
    else (set_name name ∷ [], name_failed)

pub child_main : Answers → SchedExt → Option Spec → List Call × End
unfolding set_up
child_main k fs spec = set_up k fs (priority_of spec) (name_of spec)

-- The calls that name the child.
abbrev pub naming : Option (List ℕ) → List Call
naming none = []
naming (some name) = set_name name ∷ []

prepare-ran :
    (k : Answers) (fs : SchedExt) (priority : ℤ)
    → (prepare k fs priority).1 ≡ ran
    → ((prepare k fs priority).0 ≡ schedule (set_scheduler fs (pos 7) priority) ∷ enter ∷ func ∷ [])
      × (k.scheduled ≡ true)
      × (k.entered ≡ true)
unfolding prepare
prepare-ran k fs priority e = elim (Bool-cases k.scheduled) [
  | inr n ↦ let h = rw (n, prepare) at e in absurd (cc)
  | inl s ↦ elim (Bool-cases k.entered) [
    | inr n ↦ let h = rw (s, n, prepare) at e in absurd (cc)
    | inl t ↦ (rw (s, t, prepare) refl, s, t)
  ]
]

set_up-ran :
    (k : Answers) (fs : SchedExt) (priority : ℤ) (name : Option (List ℕ))
    → (set_up k fs priority name).1 ≡ ran
    → ((set_up k fs priority name).0
        ≡ naming name ++ (schedule (set_scheduler fs (pos 7) priority) ∷ enter ∷ func ∷ []))
      × (k.scheduled ≡ true)
      × (k.entered ≡ true)
unfolding set_up
set_up-ran k fs priority none e = prepare-ran k fs priority e
set_up-ran k fs priority (some name) e = elim (Bool-cases k.prctl) [
  | inr f ↦ let h = rw (f, set_up) at e in absurd (cc)
  | inl s ↦
      let (calls, scheduled, entered) = prepare-ran k fs priority (rw (s, set_up) at e) in
      (rw (s, set_up) (ap (λ cs. set_name name ∷ cs) calls), scheduled, entered)
]

-- If the function of the child has run, then its name was set, if it has one, the policy was chosen with
-- its priority, or 0, and the cgroup was entered, in this order and each of them with success.
pub child_main-ran :
    (k : Answers) (fs : SchedExt) (spec : Option Spec)
    → (child_main k fs spec).1 ≡ ran
    → ((child_main k fs spec).0
        ≡ naming (name_of spec)
          ++ (schedule (set_scheduler fs (pos 7) (priority_of spec)) ∷ enter ∷ func ∷ []))
      × (k.scheduled ≡ true)
      × (k.entered ≡ true)
unfolding child_main
child_main-ran k fs spec e = set_up-ran k fs (priority_of spec) (name_of spec) e
