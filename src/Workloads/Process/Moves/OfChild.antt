-- ===== src/Workloads/Process/Moves/OfChild.antt =====
-- The steps of the child: `get_iters` and its rounds.
use schtest.Prelude.{◌-◌, ◌≡◌, arith, ◌∷◌, ap, refl, subst}
use schtest.Workloads.Semaphore.{Semaphore, Env, Pc, step}
use schtest.Workloads.Semaphore.Commits.{committed, committed-le}
use schtest.Workloads.Semaphore.Solo.{untimed}
use schtest.Workloads.Process.{
  signal, claim, Child, announcing, claiming, swapping, running, panicked, gone, Process,
  after_signal, after_claim, child_at,
}
use schtest.Workloads.Process.Baton.{
  child_baton, child_due, Ended, is_live, ChildKnows, keep, parent_due-le,
}
use schtest.Workloads.Process.Moves.{
  Acted, After, Inv, Untimed, act, after_claim_lem, after_signal_lem,
}

-- A step of the child.
pub child_at-Inv :
    (env : Env) (p : Process) (q : Child)
    → Untimed env
    → p.child ≡ q
    → ChildKnows q
    → Inv p
    → Inv (child_at env p q)
unfolding child_at
child_at-Inv env p panicked u e k inv = inv
child_at-Inv env p gone u e k inv = inv
child_at-Inv env p swapping u e k inv = record {
  wired = record {
    ready_valid = inv.wired.ready_valid;
    start_valid = inv.wired.start_valid;
    ready_max = inv.wired.ready_max;
    start_max = inv.wired.start_max;
    parent_knows = inv.wired.parent_knows;
    child_knows = tt;
  };
  counted = record {
    at_most = omega (arith, inv.counted.at_most, holds);
    live = λ h. omega (arith, inv.counted.live (ap is_live e), holds);
    history = λ t.
        let old = inv.counted.history (omega (arith, holds)) in
        record {
          paid = λ z. old.owed (omega (arith, ap child_due e));
          owed = λ z. absurd (omega (arith, parent_due-le p.parent));
          ended = ap (λ l. p.iters ∷ l) (subst (λ c. Ended c p.taken p.finished) e old.ended);
        };
    no_panic = λ x. cc;
  };
}
  where
    holds : child_baton p.child ≡ 1
    holds = ap child_baton e
child_at-Inv env p (running n) u e k inv = record {
  wired = record {
    ready_valid = inv.wired.ready_valid;
    start_valid = inv.wired.start_valid;
    ready_max = inv.wired.ready_max;
    start_max = inv.wired.start_max;
    parent_knows = inv.wired.parent_knows;
    child_knows = (tt, λ x. cc);
  };
  counted = record {
    at_most = omega (arith, inv.counted.at_most, holds);
    live = λ h. omega (arith, inv.counted.live (ap is_live e), holds);
    history = λ t.
        let old = inv.counted.history (omega (arith, holds)) in
        record {
          paid = λ z. old.paid (omega (arith, ap child_due e));
          owed = λ z. old.owed (omega (arith, ap child_due e));
          ended = subst (λ c. Ended c p.taken p.finished) e old.ended;
        };
    no_panic = λ x. cc;
  };
}
  where
    holds : child_baton p.child ≡ 1
    holds = ap child_baton e
child_at-Inv env p (announcing pc) u e k inv = record {
  wired = record {
    ready_valid = a.valid;
    start_valid = inv.wired.start_valid;
    ready_max = a.same_max;
    start_max = inv.wired.start_max;
    parent_knows = inv.wired.parent_knows;
    child_knows = l.knows;
  };
  counted =
      keep p _ inv.counted
        (omega (arith, a.moved, l.baton, ap child_baton e, committed-le pc, committed-le out.1))
        (omega (arith, l.owes, ap child_due e)) (λ h. ap is_live e) l.sound refl refl refl
        (λ h. l.rest p.taken p.finished (subst (λ c. Ended c p.taken p.finished) e h));
}
  where
    out : Semaphore × Pc
    out = step 0 0 signal env p.ready pc

    a : Acted signal p.ready pc out
    a = act signal env p.ready pc (omega arith) inv.wired.ready_valid inv.wired.ready_max k.0

    l : After (after_signal out.1) 0 (1 - committed out.1)
    l = after_signal_lem out.1 a.knows (untimed 0 0 signal env p.ready pc refl u k.1)
child_at-Inv env p (claiming pc) u e k inv = record {
  wired = record {
    ready_valid = inv.wired.ready_valid;
    start_valid = a.valid;
    ready_max = inv.wired.ready_max;
    start_max = a.same_max;
    parent_knows = inv.wired.parent_knows;
    child_knows = l.knows;
  };
  counted =
      keep p _ inv.counted (omega (arith, a.moved, l.baton, ap child_baton e))
        (omega (arith, a.moved, l.owes, ap child_due e)) (λ h. ap is_live e) l.sound refl refl refl
        (λ h. l.rest p.taken p.finished (subst (λ c. Ended c p.taken p.finished) e h));
}
  where
    out : Semaphore × Pc
    out = step 0 0 claim env p.start pc

    a : Acted claim p.start pc out
    a = act claim env p.start pc (omega arith) inv.wired.start_valid inv.wired.start_max k.0

    l : After (after_claim out.1) (committed out.1) (committed out.1)
    l = after_claim_lem out.1 a.knows (untimed 0 0 claim env p.start pc refl u k.1)
