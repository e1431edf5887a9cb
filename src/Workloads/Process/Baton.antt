-- ===== src/Workloads/Process/Baton.antt =====
-- Parent and child pass one baton: it is with the parent, in the `start` semaphore, with the child,
-- or in the `ready` semaphore.
use schtest.Prelude.{ℕ, ◌+◌, ◌-◌, ◌≤◌, ◌≡◌, ◌≢◌, Bool, true, false, arith, List, ◌∷◌, ◌∙◌, sym}
use schtest.Workloads.Semaphore.{amount_of, done}
use schtest.Workloads.Semaphore.Steps.{IsValid, Knows}
use schtest.Workloads.Semaphore.Commits.{committed}
use schtest.Workloads.Process.{
  signal, claim, await, Parent, idle, storing, starting, awaiting, Child, announcing, claiming,
  swapping, running, panicked, gone, Process,
}

-- Where the baton is, as 0 or 1 for each place.
abbrev pub parent_baton : Parent → ℕ
parent_baton idle = 1
parent_baton (storing n) = 1
parent_baton (starting pc) = 1 - committed pc
parent_baton (awaiting pc) = committed pc
parent_baton _ = 0

abbrev pub child_baton : Child → ℕ
child_baton (announcing pc) = 1 - committed pc
child_baton (claiming pc) = committed pc
child_baton swapping = 1
child_baton (running n) = 1
child_baton _ = 0

abbrev pub total : Process → ℕ
total p =
    parent_baton p.parent + child_baton p.child + amount_of p.start.count + amount_of p.ready.count

-- Whether a count has been stored that the child has not taken, as 0 or 1 for each place.
abbrev pub parent_due : Parent → ℕ
parent_due (starting pc) = 1 - committed pc
parent_due _ = 0

abbrev pub child_due : Child → ℕ
child_due (claiming pc) = committed pc
child_due swapping = 1
child_due _ = 0

abbrev pub due : Process → ℕ
due p = parent_due p.parent + child_due p.child + amount_of p.start.count

abbrev pub Ended : Child → List ℕ → List ℕ → Type 0
Ended (running n) taken finished = taken ≡ n ∷ finished
Ended _ taken finished = taken ≡ finished

abbrev pub is_live : Child → Bool
is_live panicked = false
is_live gone = false
is_live _ = true

abbrev pub ParentKnows : Parent → Type 0
ParentKnows (starting pc) = Knows signal 1 pc × (pc ≢ done false)
ParentKnows (awaiting pc) = Knows await 1 pc
ParentKnows _ = Unit

abbrev pub ChildKnows : Child → Type 0
ChildKnows (announcing pc) = Knows signal 1 pc × (pc ≢ done false)
ChildKnows (claiming pc) = Knows claim 1 pc × (pc ≢ done false)
ChildKnows _ = Unit

pub record Wired (p : Process) : Type 0 where
  pub ready_valid : IsValid p.ready
  pub start_valid : IsValid p.start
  pub ready_max : p.ready.max ≡ 1
  pub start_max : p.start.max ≡ 1
  pub parent_knows : ParentKnows p.parent
  pub child_knows : ChildKnows p.child

pub record History (p : Process) : Type 0 where
  pub paid : due p ≡ 0 → p.given ≡ p.taken
  pub owed : due p ≡ 1 → p.given ≡ p.iters ∷ p.taken
  pub ended : Ended p.child p.taken p.finished

pub record Counted (p : Process) : Type 0 where
  pub at_most : total p ≤ 1
  pub live : is_live p.child ≡ true → total p ≡ 1
  pub history : total p ≡ 1 → History p
  pub no_panic : p.child ≢ panicked

-- What is enough to keep `Counted` when no count and no history changes.
pub keep :
    (p p' : Process)
    → Counted p
    → total p' ≡ total p
    → due p' ≡ due p
    → (is_live p'.child ≡ true → is_live p.child ≡ true)
    → p'.child ≢ panicked
    → p'.given ≡ p.given
    → p'.iters ≡ p.iters
    → p'.taken ≡ p.taken
    → (Ended p.child p.taken p.finished → Ended p'.child p'.taken p'.finished)
    → Counted p'
keep p p' inv t d l np g i k e = record {
  at_most = omega (arith, inv.at_most);
  live = λ h. omega (arith, inv.live (l h));
  history = λ h.
      let old = inv.history (omega arith) in
      record {
        paid = λ z. g ∙ old.paid (omega arith) ∙ sym k;
        owed = λ z. g ∙ old.owed (omega arith) ∙ sym (cc (i, k));
        ended = e old.ended;
      };
  no_panic = np;
}

pub child_due-le : (c : Child) → child_due c ≤ child_baton c
child_due-le c = ground arith

pub parent_due-le : (q : Parent) → parent_due q ≤ parent_baton q
parent_due-le q = ground arith

pub Ended-rest : (c : Child) (ts fs : List ℕ) → child_baton c ≡ 0 → Ended c ts fs → ts ≡ fs
Ended-rest (announcing pc) ts fs h e = e
Ended-rest (claiming pc) ts fs h e = e
Ended-rest swapping ts fs h e = e
Ended-rest (running n) ts fs h e = absurd (omega arith)
Ended-rest panicked ts fs h e = e
Ended-rest gone ts fs h e = e
