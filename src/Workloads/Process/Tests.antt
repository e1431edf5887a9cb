-- ===== src/Workloads/Process/Tests.antt =====
-- A process that is created, started for a round of 5 iterations and waited for.
use schtest.Prelude.{◌≡◌, ◌⊎◌, refl, true, false, [], ◌∷◌}
use schtest.Workloads.Semaphore.{
  Env, failed, top, step, new, is_possible, amount_of, has_waiter, new_count,
}
use schtest.Workloads.Process.{
  Process, storing, awaiting, create, parent_step, child_step, claim, await,
}
use schtest.Workloads.Process.Moves.{Untimed}
use schtest.Workloads.Process.Rounds.{
  starts, waits, parent_turn, child_turn, Reach, fresh, later, Reach-finished, Reach-one_possible,
}

abbrev env : Env
env = record { spurious = false; now = 7; random_index = 0; futex_wait = λ t. failed }

env-Untimed : Untimed env
env-Untimed = λ e. cc

-- The child has announced itself; the parent has seen it; it is about to store; it has stored; it
-- waits again; the child has run the round; the parent has seen it.
abbrev announced : Process
announced = child_step env (child_step env (create 0))

abbrev seen : Process
seen = parent_step env (parent_step env announced)

abbrev before_store : Process
before_store = record seen { parent = storing 5 }

abbrev stored : Process
stored = parent_step env before_store

abbrev waited : Process
waited = record (parent_step env (parent_step env stored)) { parent = awaiting top }

abbrev taken : Process
taken = child_step env (child_step env (child_step env waited))

abbrev finished : Process
finished = child_step env (child_step env (child_step env taken))

abbrev back : Process
back = parent_step env (parent_step env finished)

announced-Reach : Reach announced
announced-Reach = later (later (fresh 0) (child_turn env env-Untimed)) (child_turn env env-Untimed)

seen-Reach : Reach seen
seen-Reach =
    later (later announced-Reach (parent_turn env env-Untimed)) (parent_turn env env-Untimed)

before_store-Reach : Reach before_store
unfolding create parent_step child_step step new is_possible amount_of has_waiter new_count
before_store-Reach = later seen-Reach (starts 5 refl)

stored-Reach : Reach stored
stored-Reach = later before_store-Reach (parent_turn env env-Untimed)

waited-Reach : Reach waited
unfolding create parent_step child_step step new is_possible amount_of has_waiter new_count
waited-Reach =
    later (later (later stored-Reach (parent_turn env env-Untimed)) (parent_turn env env-Untimed))
      (waits refl)

taken-Reach : Reach taken
taken-Reach =
    later (later (later waited-Reach (child_turn env env-Untimed)) (child_turn env env-Untimed))
      (child_turn env env-Untimed)

finished-Reach : Reach finished
finished-Reach =
    later (later (later taken-Reach (child_turn env env-Untimed)) (child_turn env env-Untimed))
      (child_turn env env-Untimed)

back-Reach : Reach back
back-Reach =
    later (later finished-Reach (parent_turn env env-Untimed)) (parent_turn env env-Untimed)

one_round : back.finished ≡ 5 ∷ []
unfolding create parent_step child_step step new is_possible amount_of has_waiter new_count
one_round = refl

Reach-finished_example : (back.given ≡ back.taken) × (back.taken ≡ back.finished)
unfolding create parent_step child_step step new is_possible amount_of has_waiter new_count
Reach-finished_example = Reach-finished back-Reach refl

Reach-one_possible_example :
    (is_possible await announced.ready.max (amount_of announced.ready.count) ≡ true)
    ⊎ (is_possible claim announced.start.max (amount_of announced.start.count) ≡ true)
unfolding create parent_step child_step step new is_possible amount_of has_waiter new_count
Reach-one_possible_example = Reach-one_possible top top announced-Reach refl refl refl refl
