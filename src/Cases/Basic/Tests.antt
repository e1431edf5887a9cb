-- ===== src/Cases/Basic/Tests.antt =====
-- A round of two iterations, and a machine with one core of two hyperthreads.
use schtest.Prelude.{◌≡◌, refl, true, some, [], ◌∷◌}
use schtest.Prelude.Int.{pos}
use schtest.Util.System.{Core, System}
use schtest.Workloads.Semaphore.{is_possible, new_count}
use schtest.Cases.Basic.{
  PingPong, producing, consuming, ping_turn, round, same_hyperthread, check_wake_type, turn,
}
use schtest.Cases.Basic.Rounds.{at_start, pings, GoesOn, Reach-GoesOn}

abbrev after_ping : PingPong
after_ping = record {
  sem1 = 1;
  sem2 = 0;
  ping = record { left = 2; stage = consuming };
  pong = record { left = 2; stage = producing };
}

pinged : ping_turn (round 2) ≡ some after_ping
unfolding ping_turn turn is_possible new_count
pinged = refl

Reach-GoesOn_example : GoesOn after_ping
Reach-GoesOn_example = Reach-GoesOn 2 after_ping (pings at_start pinged)

abbrev core : Core
core = record { id = pos 0; hyperthreads = record { id = 0 } ∷ (record { id = 1 } ∷ []) }

abbrev system : System
system = record {
  nodes = record { id = pos 0; complexes = record { id = pos 0; cores = core ∷ [] } ∷ [] } ∷ [];
  all_cores = core ∷ [];
  cpu_to_topology = [];
}

allowed : check_wake_type same_hyperthread system ≡ some true
unfolding check_wake_type
allowed = refl
