-- ===== src/Util/Sched/Policy.antt =====
-- `Sched::set_scheduler` and `SchedExt` of src/util/sched.rs. Files are what reading them gives; the
-- answer of the scheduling call is passed on and not modelled.
use schtest.Prelude.{
  ℕ, ◌≡◌, refl, Bool, true, false, ◌||◌, Option, none, some, List, [], if◌then◌else◌, inl, inr, ◌⊎◌,
  Bool-cases, arith, ap, sym, ◌∙◌,
}
use schtest.Prelude.Int.{ℤ, pos}
use schtest.Prelude.Text.{codes, same_text, same_text_self, same_text-eq, trim}

-- A file of sysfs: it does not exist, it cannot be read, or what it holds.
pub data File : Type 0 where
  missing unreadable : File
  content : List ℕ → File

-- The directory of the framework, its state and the name of the scheduler.
pub record SchedExt : Type 0 where
  pub available : Bool
  pub state : File
  pub ops : File

pub data Installed : Type 0 where
  ok : Option (List ℕ) → Installed
  err : Installed

pub read_ops : File → Installed
read_ops missing = ok none
read_ops unreadable = err
read_ops (content text) = ok (some (trim text))

unfoldable pub installed : SchedExt → Installed
unfolding read_ops
installed fs =
    if fs.available
    then elim fs.state [
      | missing ↦ ok none
      | unreadable ↦ err
      | content text ↦
          if same_text (trim text) (codes "disabled") || same_text (trim text) (codes "enabling")
          then ok none
          else if same_text (trim text) (codes "enabled")
          then read_ops fs.ops
          else err
    ]
    else ok none

-- The call of the kernel that is made; its answer is the result.
pub data Call : Type 0 where
  sched_setscheduler : (policy priority : ℤ) → Call
  sched_setparam : (priority : ℤ) → Call

pub call_of : Installed → ℤ → ℤ → Call
call_of (ok (some s)) policy priority = sched_setscheduler policy priority
call_of (ok none) policy priority = sched_setparam priority
call_of err policy priority = sched_setparam priority

pub set_scheduler : SchedExt → ℤ → ℤ → Call
unfolding installed call_of
set_scheduler fs policy priority = call_of (installed fs) policy priority

-- The framework is there, its state is `enabled` but for whitespace, and the name can be read.
pub record IsEnabled (fs : SchedExt) : Type 0 where
  pub text : List ℕ
  pub scheduler : List ℕ
  pub is_available : fs.available ≡ true
  pub state_text : fs.state ≡ content text
  pub is_enabled : trim text ≡ codes "enabled"
  pub ops_text : fs.ops ≡ content scheduler

abbrev pub Chosen : SchedExt → ℤ → ℤ → Type 0
Chosen fs policy priority =
    (IsEnabled fs × (set_scheduler fs policy priority ≡ sched_setscheduler policy priority))
    ⊎ ((¬ IsEnabled fs) × (set_scheduler fs policy priority ≡ sched_setparam priority))

enabled_ops :
    (text : List ℕ) (ops : File) (policy priority : ℤ)
    → trim text ≡ codes "enabled"
    → Chosen (record { available = true; state = content text; ops = ops }) policy priority
unfolding set_scheduler installed read_ops call_of same_text
enabled_ops text missing policy priority e = rw e (inr (λ h. ground (arith, h.ops_text), refl))
enabled_ops text unreadable policy priority e = rw e (inr (λ h. ground (arith, h.ops_text), refl))
enabled_ops text (content s) policy priority e = inl (
  record {
    text = text;
    scheduler = s;
    is_available = refl;
    state_text = refl;
    is_enabled = e;
    ops_text = refl;
  },
  rw e refl,
)

text_of : File → List ℕ
text_of (content t) = t
text_of _ = []

not-IsEnabled :
    (text : List ℕ) (ops : File)
    → same_text (trim text) (codes "enabled") ≡ false
    → ¬ IsEnabled (record { available = true; state = content text; ops = ops })
unfolding text_of
not-IsEnabled text ops n h = absurd (clash (ap (λ t. same_text t (codes "enabled")) same))
  where
    same : trim text ≡ codes "enabled"
    same = ap (λ f. trim (text_of f)) h.state_text ∙ h.is_enabled

    clash :
        same_text (trim text) (codes "enabled") ≡ same_text (codes "enabled") (codes "enabled") → ⊥
    clash e = ground (arith, e, same_text_self (codes "enabled"))

other_state :
    (text : List ℕ) (ops : File) (policy priority : ℤ)
    → same_text (trim text) (codes "enabled") ≡ false
    → set_scheduler (record { available = true; state = content text; ops = ops }) policy priority
      ≡ sched_setparam priority
unfolding set_scheduler installed call_of
other_state text ops policy priority n = ground arith

by_state :
    (a : Bool) (state ops : File) (policy priority : ℤ)
    → Chosen (record { available = a; state = state; ops = ops }) policy priority
unfolding set_scheduler installed call_of
by_state false state ops policy priority = inr (λ h. ground (arith, h.is_available), refl)
by_state true missing ops policy priority = inr (λ h. ground (arith, h.state_text), refl)
by_state true unreadable ops policy priority = inr (λ h. ground (arith, h.state_text), refl)
by_state true (content text) ops policy priority =
    elim (Bool-cases (same_text (trim text) (codes "enabled"))) [
      | inl e ↦ enabled_ops text ops policy priority (same_text-eq _ _ e)
      | inr n ↦ inr (not-IsEnabled text ops n, other_state text ops policy priority n)
    ]

-- The policy is set by `sched_setscheduler` exactly if a scheduler is installed: the framework is
-- there, its state is `enabled` but for whitespace at the ends, and the name of the scheduler can
-- be read. Otherwise, also on errors, only the priority is set.
pub set_scheduler-Chosen : (fs : SchedExt) (policy priority : ℤ) → Chosen fs policy priority
set_scheduler-Chosen fs policy priority = by_state fs.available fs.state fs.ops policy priority

-- The answer of `installed` tells whether a scheduler is installed.
pub installed-IsEnabled :
    (fs : SchedExt) (name : List ℕ) → installed fs ≡ ok (some name) → IsEnabled fs
unfolding set_scheduler call_of
installed-IsEnabled fs name e = elim (set_scheduler-Chosen fs (pos 7) (pos 0)) [
  | inl h ↦ h.0
  | inr h ↦ absurd (other (sym (ap (λ i. call_of i (pos 7) (pos 0)) e) ∙ h.1))
]
  where
    other : sched_setscheduler (pos 7) (pos 0) ≡ sched_setparam (pos 0) → ⊥
    other c = cc

pub installed-not_IsEnabled : (fs : SchedExt) → installed fs ≡ ok none → ¬ IsEnabled fs
unfolding set_scheduler call_of
installed-not_IsEnabled fs e = elim (set_scheduler-Chosen fs (pos 7) (pos 0)) [
  | inl h ↦ absurd (other (sym (ap (λ i. call_of i (pos 7) (pos 0)) e) ∙ h.1))
  | inr h ↦ h.0
]
  where
    other : sched_setparam (pos 0) ≡ sched_setscheduler (pos 7) (pos 0) → ⊥
    other c = cc
