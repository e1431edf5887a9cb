-- ===== src/Workloads/Process/Moves/OfParent.antt =====
-- The steps of the parent: `start` and `wait`.
use schtest.Prelude.{◌+◌, ◌≡◌, arith, ◌∷◌, ap, refl}
use schtest.Workloads.Semaphore.{Semaphore, Env, Pc, step}
use schtest.Workloads.Semaphore.Commits.{committed, committed-le}
use schtest.Workloads.Semaphore.Solo.{untimed}
use schtest.Workloads.Process.{
  signal, await, Parent, idle, storing, starting, started, awaiting, asking, wait_failed, Process,
  after_start, after_await, parent_at,
}
use schtest.Workloads.Process.Baton.{parent_baton, parent_due, ParentKnows, keep, child_due-le}
use schtest.Workloads.Process.Moves.{Acted, Inv, Untimed, act, after_await_lem, after_start_lem}

-- A step of the parent, by where it stands.
pub parent_at-Inv :
    (env : Env) (p : Process) (q : Parent)
    → Untimed env
    → p.parent ≡ q
    → ParentKnows q
    → Inv p
    → Inv (parent_at env p q)
unfolding parent_at
parent_at-Inv env p idle u e k inv = inv
parent_at-Inv env p started u e k inv = inv
parent_at-Inv env p asking u e k inv = inv
parent_at-Inv env p wait_failed u e k inv = inv
parent_at-Inv env p (storing n) u e k inv = record {
  wired = record {
    ready_valid = inv.wired.ready_valid;
    start_valid = inv.wired.start_valid;
    ready_max = inv.wired.ready_max;
    start_max = inv.wired.start_max;
    parent_knows = (tt, λ e. cc);
    child_knows = inv.wired.child_knows;
  };
  counted = record {
    at_most = omega (arith, inv.counted.at_most, holds);
    live = λ h. omega (arith, inv.counted.live h, holds);
    history = λ t.
        let old = inv.counted.history (omega (arith, holds)) in
        record {
          paid = λ z. absurd (omega arith);
          owed = λ z.
              ap (λ l. n ∷ l)
                (old.paid (omega (arith, holds, ap parent_due e, child_due-le p.child)));
          ended = old.ended;
        };
    no_panic = inv.counted.no_panic;
  };
}
  where
    holds : parent_baton p.parent ≡ 1
    holds = ap parent_baton e
parent_at-Inv env p (starting pc) u e k inv = record {
  wired = record {
    ready_valid = inv.wired.ready_valid;
    start_valid = a.valid;
    ready_max = inv.wired.ready_max;
    start_max = a.same_max;
    parent_knows = l.0;
    child_knows = inv.wired.child_knows;
  };
  counted =
      keep p _ inv.counted (omega (arith, a.moved, l.1, ap parent_baton e, committed-le pc))
        (omega (arith, a.moved, l.2, ap parent_due e, committed-le pc)) (λ h. h)
        inv.counted.no_panic refl refl refl (λ h. h);
}
  where
    out : Semaphore × Pc
    out = step 0 0 signal env p.start pc

    a : Acted signal p.start pc out
    a = act signal env p.start pc (omega arith) inv.wired.start_valid inv.wired.start_max k.0

    l :
        ParentKnows (after_start out.1)
        × (parent_baton (after_start out.1) + committed out.1 ≡ 1)
        × (parent_due (after_start out.1) + committed out.1 ≡ 1)
    l = after_start_lem out.1 a.knows (untimed 0 0 signal env p.start pc refl u k.1)
parent_at-Inv env p (awaiting pc) u e k inv = record {
  wired = record {
    ready_valid = a.valid;
    start_valid = inv.wired.start_valid;
    ready_max = a.same_max;
    start_max = inv.wired.start_max;
    parent_knows = l.0;
    child_knows = inv.wired.child_knows;
  };
  counted =
      keep p _ inv.counted (omega (arith, a.moved, l.1, ap parent_baton e))
        (omega (arith, l.2, ap parent_due e)) (λ h. h) inv.counted.no_panic refl refl refl (λ h. h);
}
  where
    out : Semaphore × Pc
    out = step 0 0 await env p.ready pc

    a : Acted await p.ready pc out
    a = act await env p.ready pc (omega arith) inv.wired.ready_valid inv.wired.ready_max k

    l :
        ParentKnows (after_await out.1)
        × (parent_baton (after_await out.1) ≡ committed out.1)
        × (parent_due (after_await out.1) ≡ 0)
    l = after_await_lem out.1 a.knows
