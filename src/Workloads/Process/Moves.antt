-- ===== src/Workloads/Process/Moves.antt =====
-- What the steps of parent and child do to the baton and the histories.
pub mod OfParent
pub mod OfChild
use schtest.Prelude.{
  ℕ, ◌+◌, ◌-◌, ◌≤◌, ◌≡◌, ◌≢◌, true, false, arith, none, List, ◌∷◌, ap, ◌∙◌, refl, sym, subst,
}
use schtest.Workloads.Semaphore.{
  amount_of, Semaphore, Env, Call, Pc, top, decide, park, waiting, measure, resetting, waking, done,
  timed_out, step,
}
use schtest.Workloads.Semaphore.Steps.{IsValid, Knows}
use schtest.Workloads.Semaphore.Commits.{committed, Moved, committed-le, step-Moved}
use schtest.Workloads.Semaphore.Solo.{untimed}
use schtest.Workloads.Process.{
  signal, claim, await, Parent, idle, storing, starting, started, awaiting, asking, wait_failed,
  Child, announcing, claiming, swapping, running, panicked, gone, Process, after_start, after_await,
  after_signal, after_claim, parent_at, child_at,
}
use schtest.Workloads.Process.Baton.{
  parent_baton, child_baton, parent_due, child_due, Ended, is_live, ParentKnows, ChildKnows, Wired,
  Counted, keep, child_due-le, parent_due-le,
}

abbrev pub Untimed : Env → Type 0
Untimed env = env.futex_wait none ≢ timed_out

-- What the step of a semaphore leaves behind a call.
after_start_lem :
    (pc : Pc)
    → Knows signal 1 pc
    → pc ≢ done false
    → ParentKnows (after_start pc)
      × (parent_baton (after_start pc) + committed pc ≡ 1)
      × (parent_due (after_start pc) + committed pc ≡ 1)
after_start_lem (done true) k h = (tt, refl, refl)
after_start_lem (done false) k h = absurd (h refl)
after_start_lem top k h = ((k, h), refl, refl)
after_start_lem (decide cur) k h = ((k, h), refl, refl)
after_start_lem (park cur) k h = ((k, h), refl, refl)
after_start_lem (waiting cur cookie) k h = ((k, h), refl, refl)
after_start_lem (measure cookie) k h = ((k, h), refl, refl)
after_start_lem resetting k h = ((k, h), refl, refl)
after_start_lem waking k h = ((k, h), refl, refl)

after_await_lem :
    (pc : Pc)
    → Knows await 1 pc
    → ParentKnows (after_await pc)
      × (parent_baton (after_await pc) ≡ committed pc)
      × (parent_due (after_await pc) ≡ 0)
after_await_lem (done true) k = (tt, refl, refl)
after_await_lem (done false) k = (tt, refl, refl)
after_await_lem top k = (k, refl, refl)
after_await_lem (decide cur) k = (k, refl, refl)
after_await_lem (park cur) k = (k, refl, refl)
after_await_lem (waiting cur cookie) k = (k, refl, refl)
after_await_lem (measure cookie) k = (k, refl, refl)
after_await_lem resetting k = (k, refl, refl)
after_await_lem waking k = (k, refl, refl)

-- The same for the child, with what it has of a round.
record After (c : Child) (due_to baton_to : ℕ) : Type 0 where
  pub knows : ChildKnows c
  pub baton : child_baton c ≡ baton_to
  pub owes : child_due c ≡ due_to
  pub sound : c ≢ panicked
  pub rest : (ts fs : List ℕ) → ts ≡ fs → Ended c ts fs

after_signal_lem :
    (pc : Pc) → Knows signal 1 pc → pc ≢ done false → After (after_signal pc) 0 (1 - committed pc)
after_signal_lem (done true) k h = record {
  knows = (tt, λ e. cc);
  baton = refl;
  owes = refl;
  sound = λ e. cc;
  rest = λ ts fs e. e;
}
after_signal_lem (done false) k h = absurd (h refl)
after_signal_lem top k h = record {
  knows = (k, h);
  baton = refl;
  owes = refl;
  sound = λ e. cc;
  rest = λ ts fs e. e;
}
after_signal_lem (decide cur) k h = record {
  knows = (k, h);
  baton = refl;
  owes = refl;
  sound = λ e. cc;
  rest = λ ts fs e. e;
}
after_signal_lem (park cur) k h = record {
  knows = (k, h);
  baton = refl;
  owes = refl;
  sound = λ e. cc;
  rest = λ ts fs e. e;
}
after_signal_lem (waiting cur cookie) k h = record {
  knows = (k, h);
  baton = refl;
  owes = refl;
  sound = λ e. cc;
  rest = λ ts fs e. e;
}
after_signal_lem (measure cookie) k h = record {
  knows = (k, h);
  baton = refl;
  owes = refl;
  sound = λ e. cc;
  rest = λ ts fs e. e;
}
after_signal_lem resetting k h = record {
  knows = (k, h);
  baton = refl;
  owes = refl;
  sound = λ e. cc;
  rest = λ ts fs e. e;
}
after_signal_lem waking k h = record {
  knows = (k, h);
  baton = refl;
  owes = refl;
  sound = λ e. cc;
  rest = λ ts fs e. e;
}

after_claim_lem :
    (pc : Pc)
    → Knows claim 1 pc
    → pc ≢ done false
    → After (after_claim pc) (committed pc) (committed pc)
after_claim_lem (done true) k h = record {
  knows = tt;
  baton = refl;
  owes = refl;
  sound = λ e. cc;
  rest = λ ts fs e. e;
}
after_claim_lem (done false) k h = absurd (h refl)
after_claim_lem top k h = record {
  knows = (k, h);
  baton = refl;
  owes = refl;
  sound = λ e. cc;
  rest = λ ts fs e. e;
}
after_claim_lem (decide cur) k h = record {
  knows = (k, h);
  baton = refl;
  owes = refl;
  sound = λ e. cc;
  rest = λ ts fs e. e;
}
after_claim_lem (park cur) k h = record {
  knows = (k, h);
  baton = refl;
  owes = refl;
  sound = λ e. cc;
  rest = λ ts fs e. e;
}
after_claim_lem (waiting cur cookie) k h = record {
  knows = (k, h);
  baton = refl;
  owes = refl;
  sound = λ e. cc;
  rest = λ ts fs e. e;
}
after_claim_lem (measure cookie) k h = record {
  knows = (k, h);
  baton = refl;
  owes = refl;
  sound = λ e. cc;
  rest = λ ts fs e. e;
}
after_claim_lem resetting k h = record {
  knows = (k, h);
  baton = refl;
  owes = refl;
  sound = λ e. cc;
  rest = λ ts fs e. e;
}
after_claim_lem waking k h = record {
  knows = (k, h);
  baton = refl;
  owes = refl;
  sound = λ e. cc;
  rest = λ ts fs e. e;
}

pub record Inv (p : Process) : Type 0 where
  pub wired : Wired p
  pub counted : Counted p

-- What a step of a call on one of the semaphores, whose maximum is 1, gives.
record Acted (c : Call) (s : Semaphore) (pc : Pc) (out : Semaphore × Pc) : Type 0 where
  pub valid : IsValid out.0
  pub same_max : out.0.max ≡ 1
  pub knows : Knows c 1 out.1
  pub moved :
      Moved c.method c.v
        (amount_of s.count)
        (amount_of out.0.count)
        (committed pc)
        (committed out.1)

act :
    (c : Call) (env : Env) (s : Semaphore) (pc : Pc)
    → c.v ≤ 1
    → IsValid s
    → s.max ≡ 1
    → Knows c 1 pc
    → Acted c s pc (step 0 0 c env s pc)
act c env s pc small v m k =
    let r = step-Moved 0 0 c env s pc (omega arith) v (subst (λ n. Knows c n pc) (sym m) k) in
    record {
      valid = r.0;
      same_max = r.2 ∙ m;
      knows = subst (λ n. Knows c n (step 0 0 c env s pc).1) (r.2 ∙ m) r.1;
      moved = r.3;
    }
