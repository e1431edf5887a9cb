-- ===== src/Workloads/Process.antt =====
-- src/workloads/process.rs: a process that runs rounds of iterations for its parent, and what
-- passes between them: two semaphores and the count of iterations. Each atomic access is a step;
-- those of the semaphores are the steps of Workloads/Semaphore, without wake statistics.
-- What the child does before its function is in Setup, `join` in Util/Child/Drop.
pub mod Baton
pub mod Moves
pub mod Rounds
pub mod Setup
mod Tests
use schtest.Prelude.{
  ℕ, Bool, true, false, Option, none, some, List, [], ◌∷◌, ◌^◌, ◌*◌, if◌then◌else◌,
}
use schtest.Workloads.Semaphore
use schtest.Workloads.Semaphore.{Semaphore, Env, Call, consume, produce, Pc, top, done, step}

-- The calls: `produce(1, 1, None)`, `consume(1, 1, None)`, and that of `wait` with its second.
abbrev pub signal : Call
signal = record { method = produce; v = 1; wake = 1; timeout = none }

abbrev pub claim : Call
claim = record { method = consume; v = 1; wake = 1; timeout = none }

abbrev pub await : Call
await = record { method = consume; v = 1; wake = 1; timeout = some (10 ^ 9) }

-- The thread of the parent: `wait` has returned; `start` before its store and in its `produce`;
-- `start` has returned; in the `consume` of `wait`; after its timeout, before asking whether the
-- child is alive; `wait` has failed.
pub data Parent : Type 0 where
  idle : Parent
  storing : (iters : ℕ) → Parent
  starting : (pc : Pc) → Parent
  started : Parent
  awaiting : (pc : Pc) → Parent
  asking : Parent
  wait_failed : Parent

-- The child, in `get_iters`: its `produce`, its `consume` and the swap; running a round; ended.
pub data Child : Type 0 where
  announcing : (pc : Pc) → Child
  claiming : (pc : Pc) → Child
  swapping : Child
  running : (iters : ℕ) → Child
  panicked : Child
  gone : Child

-- `given`, `taken` and `finished` are histories, newest first, that the program does not keep: the
-- counts given to `start`, those that `get_iters` returned, and those whose round has ended.
pub record Process : Type 0 where
  pub ready : Semaphore
  pub start : Semaphore
  pub iters : ℕ
  pub parent : Parent
  pub child : Child
  pub given : List ℕ
  pub taken : List ℕ
  pub finished : List ℕ

abbrev pub after_start : Pc → Parent
after_start (done result) = started
after_start pc = starting pc

-- `wait` stops at a success of `consume`; after a failure it asks.
abbrev pub after_await : Pc → Parent
after_await (done true) = idle
after_await (done false) = asking
after_await pc = awaiting pc

abbrev pub after_signal : Pc → Child
after_signal (done result) = claiming top
after_signal pc = announcing pc

abbrev pub after_claim : Pc → Child
after_claim (done true) = swapping
after_claim (done false) = panicked
after_claim pc = claiming pc

-- `Process::create`, at its `wait`.
pub create : ℕ → Process
create now = record {
  ready = Semaphore.new 0 0 now 1;
  start = Semaphore.new 0 0 now 1;
  iters = 0;
  parent = awaiting top;
  child = announcing top;
  given = [];
  taken = [];
  finished = [];
}

-- A step of `start` or `wait` under way.
pub parent_at : Env → Process → Parent → Process
parent_at env p (storing n) = record p { iters = n; parent = starting top; given = n ∷ p.given }
parent_at env p (starting pc) =
    let (sem, pc') = step 0 0 signal env p.start pc in
    record p { start = sem; parent = after_start pc' }
parent_at env p (awaiting pc) =
    let (sem, pc') = step 0 0 await env p.ready pc in
    record p { ready = sem; parent = after_await pc' }
parent_at env p _ = p

pub parent_step : Env → Process → Process
unfolding parent_at
parent_step env p = parent_at env p p.parent

-- A step of the child: of `get_iters`, or of its function, which asks for the next count when a
-- round has ended.
pub child_at : Env → Process → Child → Process
child_at env p (announcing pc) =
    let (sem, pc') = step 0 0 signal env p.ready pc in
    record p { ready = sem; child = after_signal pc' }
child_at env p (claiming pc) =
    let (sem, pc') = step 0 0 claim env p.start pc in
    record p { start = sem; child = after_claim pc' }
child_at env p swapping = record p { iters = 0; child = running p.iters; taken = p.iters ∷ p.taken }
child_at env p (running n) = record p { child = announcing top; finished = n ∷ p.finished }
child_at env p _ = p

pub child_step : Env → Process → Process
unfolding child_at
child_step env p = child_at env p p.child
