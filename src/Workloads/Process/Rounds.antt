-- ===== src/Workloads/Process/Rounds.antt =====
-- A parent that starts a round and waits for it, in turns, as `Context::run` does, and a child that
-- may end at any time: their steps interleaved in any order.
use schtest.Prelude.{
  dec_lt, ◌^◌, ℕ, ◌≡◌, ◌≢◌, Bool, true, false, arith, none, some, ap, if◌then◌else◌, refl, sym, inl,
  inr, ◌⊎◌,
}
use schtest.Workloads.Semaphore.{amount_of, Env, Pc, top, new, is_possible}
use schtest.Workloads.Semaphore.Steps.{IsValid}
use schtest.Workloads.Semaphore.Interleave.{new-IsValid, new-max}
use schtest.Workloads.Semaphore.Commits.{committed, possible_produce, possible_consume}
use schtest.Workloads.Process.{
  signal, claim, await, Parent, idle, storing, starting, started, awaiting, asking, wait_failed,
  claiming, swapping, panicked, gone, Process, create, parent_step, child_step,
}
use schtest.Workloads.Process.Baton.{
  parent_baton, child_baton, parent_due, is_live, ParentKnows, History, keep, child_due-le,
  Ended-rest,
}
use schtest.Workloads.Process.Moves.{Untimed, Inv}
use schtest.Workloads.Process.Moves.OfParent.{parent_at-Inv}
use schtest.Workloads.Process.Moves.OfChild.{child_at-Inv}

pub data Step (p : Process) : Process → Type 0 where
  starts : (n : ℕ) → p.parent ≡ idle → Step p (record p { parent = storing n })
  waits : p.parent ≡ started → Step p (record p { parent = awaiting top })
  -- the answer of `alive`, which is no only if the child has ended
  answers :
      (alive : Bool)
      → p.parent ≡ asking
      → (alive ≡ false → is_live p.child ≡ false)
      → Step p (record p { parent = if alive then awaiting top else wait_failed })
  parent_turn : (env : Env) → Untimed env → Step p (parent_step env p)
  child_turn : (env : Env) → Untimed env → Step p (child_step env p)
  ends : Step p (record p { child = gone })

-- From `Process::create` on.
pub data Reach : Process → Type 0 where
  fresh : (now : ℕ) → Reach (create now)
  later : {p q : Process} → Reach p → Step p q → Reach q

-- A change of the parent alone that keeps its part of the baton.
parent-Inv :
    (p : Process) (q : Parent)
    → ParentKnows q
    → parent_baton q ≡ parent_baton p.parent
    → parent_due q ≡ parent_due p.parent
    → Inv p
    → Inv (record p { parent = q })
parent-Inv p q k b d inv = record {
  wired = record {
    ready_valid = inv.wired.ready_valid;
    start_valid = inv.wired.start_valid;
    ready_max = inv.wired.ready_max;
    start_max = inv.wired.start_max;
    parent_knows = k;
    child_knows = inv.wired.child_knows;
  };
  counted =
      keep p _ inv.counted (omega (arith, b)) (omega (arith, d)) (λ h. h) inv.counted.no_panic refl
        refl refl (λ h. h);
}

ends-Inv : (p : Process) → Inv p → Inv (record p { child = gone })
ends-Inv p inv = record {
  wired = record {
    ready_valid = inv.wired.ready_valid;
    start_valid = inv.wired.start_valid;
    ready_max = inv.wired.ready_max;
    start_max = inv.wired.start_max;
    parent_knows = inv.wired.parent_knows;
    child_knows = tt;
  };
  counted = record {
    at_most = omega (arith, inv.counted.at_most);
    live = λ h. cc;
    history = λ t.
        let none_lost : child_baton p.child ≡ 0 = omega (arith, inv.counted.at_most) in
        let old = inv.counted.history (omega (arith, none_lost)) in
        record {
          paid = λ z. old.paid (omega (arith, child_due-le p.child));
          owed = λ z. old.owed (omega (arith, child_due-le p.child));
          ended = Ended-rest p.child p.taken p.finished none_lost old.ended;
        };
    no_panic = λ e. cc;
  };
}

answered :
    (p : Process) (alive : Bool)
    → p.parent ≡ asking
    → Inv p
    → Inv (record p { parent = if alive then awaiting top else wait_failed })
answered p true e inv =
    parent-Inv p (awaiting top) tt (sym (ap parent_baton e)) (sym (ap parent_due e)) inv
answered p false e inv =
    parent-Inv p wait_failed tt (sym (ap parent_baton e)) (sym (ap parent_due e)) inv

Step-Inv : {p q : Process} → Step p q → Inv p → Inv q
unfolding parent_step child_step
Step-Inv {p} (starts n e) inv =
    parent-Inv p (storing n) tt (sym (ap parent_baton e)) (sym (ap parent_due e)) inv
Step-Inv {p} (waits e) inv =
    parent-Inv p (awaiting top) tt (sym (ap parent_baton e)) (sym (ap parent_due e)) inv
Step-Inv {p} (answers alive e h) inv = answered p alive e inv
Step-Inv {p} (parent_turn env u) inv =
    parent_at-Inv env p p.parent u refl inv.wired.parent_knows inv
Step-Inv {p} (child_turn env u) inv = child_at-Inv env p p.child u refl inv.wired.child_knows inv
Step-Inv {p} ends inv = ends-Inv p inv

create-Inv : (now : ℕ) → Inv (create now)
unfolding create
create-Inv now = record {
  wired = record {
    ready_valid = f.0;
    start_valid = f.0;
    ready_max = new-max 0 0 now 1 (omega arith);
    start_max = new-max 0 0 now 1 (omega arith);
    parent_knows = tt;
    child_knows = (tt, λ e. cc);
  };
  counted = record {
    at_most = omega (arith, f.1);
    live = λ h. omega (arith, f.1);
    history =
        λ t. record { paid = λ z. refl; owed = λ z. absurd (omega (arith, f.1)); ended = refl };
    no_panic = λ e. cc;
  };
}
  where
    f : IsValid (new 0 0 now 1) × (amount_of (new 0 0 now 1).count ≡ 0)
    f = new-IsValid 0 0 now 1

pub Reach-Inv : {p : Process} → Reach p → Inv p
Reach-Inv (fresh now) = create-Inv now
Reach-Inv (later r st) = Step-Inv st (Reach-Inv r)

-- In every interleaving, when a `wait` has returned with success, the child has taken each count
-- that was given to `start`, in order and once, and has run each of these rounds to its end.
pub Reach-finished :
    {p : Process} → Reach p → p.parent ≡ idle → (p.given ≡ p.taken) × (p.taken ≡ p.finished)
Reach-finished {p} r e = (
  h.paid (
      omega (arith, inv.counted.at_most, ap parent_due e, ap parent_baton e, child_due-le p.child)),
  Ended-rest p.child p.taken p.finished (omega (arith, inv.counted.at_most, ap parent_baton e))
      h.ended,
)
  where
    inv : Inv p
    inv = Reach-Inv r

    h : History p
    h = inv.counted.history (omega (arith, inv.counted.at_most, ap parent_baton e))

-- In every interleaving, while the parent is about to store the iteration count, the child is not
-- about to swap it; and the child has not panicked on a failed `consume`.
pub Reach-exclusive :
    {p : Process} (n : ℕ)
    → Reach p
    → p.parent ≡ storing n
    → (p.child ≢ swapping) × (p.child ≢ panicked)
Reach-exclusive {p} n r e = (
  λ c. absurd (omega (arith, (Reach-Inv r).counted.at_most, ap child_baton c, ap parent_baton e)),
  (Reach-Inv r).counted.no_panic,
)

-- In every interleaving, the `produce` of a `start` that has not succeeded yet is possible at once.
pub Reach-start_possible :
    {p : Process} (pc : Pc)
    → Reach p
    → p.parent ≡ starting pc
    → committed pc ≡ 0
    → is_possible signal p.start.max (amount_of p.start.count) ≡ true
Reach-start_possible {p} pc r e z =
    possible_produce 1 1 none p.start.max (amount_of p.start.count)
      (omega (arith, inv.counted.at_most, ap parent_baton e, inv.wired.start_max))
      (omega (arith, inv.wired.start_max))
  where
    inv : Inv p
    inv = Reach-Inv r

-- In every interleaving, if parent and child are each in a `consume` that has not succeeded, one of
-- the two is possible: they never wait for each other.
pub Reach-one_possible :
    {p : Process} (pc qc : Pc)
    → Reach p
    → p.parent ≡ awaiting pc
    → p.child ≡ claiming qc
    → committed pc ≡ 0
    → committed qc ≡ 0
    → (is_possible await p.ready.max (amount_of p.ready.count) ≡ true)
      ⊎ (is_possible claim p.start.max (amount_of p.start.count) ≡ true)
Reach-one_possible {p} pc qc r e f y z = elim (dec_lt 0 (amount_of p.ready.count)) [
  | yes h ↦ inl (possible_consume 1 1 (some (10 ^ 9)) p.ready.max _ (omega arith))
  | no h ↦ inr (
      possible_consume 1 1 none p.start.max _
        (omega (arith, inv.counted.live (ap is_live f), ap parent_baton e, ap child_baton f)))
]
  where
    inv : Inv p
    inv = Reach-Inv r
