-- ===== src/Cases/Latency/Exchange/Tests.antt =====
-- A round of one iteration, step by step.
use schtest.Prelude.{◌≡◌, refl, true, false, some}
use schtest.Workloads.Semaphore.{is_possible, new_count}
use schtest.Cases.Basic.{turn, consuming}
use schtest.Cases.Latency.Exchange.{Exchange, ask, serve, asked}
use schtest.Cases.Latency.Exchange.Rounds.{Reach, at_start, asks, serves, Phase, Reach-Phase}

abbrev busy : Exchange
busy = record {
  sem = 0;
  sem_ret = 0;
  asker = record { left = 1; stage = consuming };
  working = true;
  worked = 0;
}

request : ask (asked 1) ≡ some (record busy { sem = 1; working = false })
unfolding ask turn is_possible new_count
request = refl

accept : serve (record busy { sem = 1; working = false }) ≡ some busy
unfolding serve is_possible new_count
accept = refl

reach_busy : Reach 1 busy
reach_busy = serves (asks at_start request) accept

Reach-Phase_example : Phase 1 busy
Reach-Phase_example = Reach-Phase 1 busy reach_busy
