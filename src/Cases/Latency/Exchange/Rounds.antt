-- ===== src/Cases/Latency/Exchange/Rounds.antt =====
-- The steps of the two threads of a process of `adaptive_priority` in src/cases/latency.rs, in any
-- order.
use schtest.Prelude.{ℕ, zero, suc, ◌+◌, ◌≡◌, refl, subst, true, false, some, arith}
use mathlib.Core.Option.{none-ne-some, some-injective}
use schtest.Workloads.Semaphore.{is_possible, new_count}
use schtest.Cases.Basic.{producing, consuming, turn}
use schtest.Cases.Latency.Exchange.{Exchange, ask, serve, asked}

-- The states of a round, from its start, in any order of the steps.
pub data Reach (iters : ℕ) : Exchange → Type 0 where
  at_start : Reach iters (asked iters)
  asks : {e d : Exchange} → Reach iters e → ask e ≡ some d → Reach iters d
  serves : {e d : Exchange} → Reach iters e → serve e ≡ some d → Reach iters d

-- Where the two threads stand together.
pub data Phase (iters : ℕ) : Exchange → Type 0 where
  between :
      (left worked : ℕ)
      → worked + left ≡ iters
      → Phase iters (record {
        sem = 0;
        sem_ret = 0;
        asker = record { left = left; stage = producing };
        working = false;
        worked = worked;
      })
  requested :
      (left worked : ℕ)
      → worked + suc left ≡ iters
      → Phase iters (record {
        sem = 1;
        sem_ret = 0;
        asker = record { left = suc left; stage = consuming };
        working = false;
        worked = worked;
      })
  at_work :
      (left worked : ℕ)
      → worked + suc left ≡ iters
      → Phase iters (record {
        sem = 0;
        sem_ret = 0;
        asker = record { left = suc left; stage = consuming };
        working = true;
        worked = worked;
      })
  answered :
      (left worked : ℕ)
      → worked + left ≡ iters
      → Phase iters (record {
        sem = 0;
        sem_ret = 1;
        asker = record { left = suc left; stage = consuming };
        working = false;
        worked = worked;
      })

ask-Phase : (iters : ℕ) (e d : Exchange) → Phase iters e → ask e ≡ some d → Phase iters d
unfolding ask turn is_possible new_count
ask-Phase iters _ d (between zero worked h) s = absurd (none-ne-some _ s)
ask-Phase iters _ d (between (suc left) worked h) s =
    subst (Phase iters) (some-injective _ _ s) (requested left worked h)
ask-Phase iters _ d (requested left worked h) s = absurd (none-ne-some _ s)
ask-Phase iters _ d (at_work left worked h) s = absurd (none-ne-some _ s)
ask-Phase iters _ d (answered left worked h) s =
    subst (Phase iters) (some-injective _ _ s) (between left worked h)

serve-Phase : (iters : ℕ) (e d : Exchange) → Phase iters e → serve e ≡ some d → Phase iters d
unfolding serve is_possible new_count
serve-Phase iters _ d (between left worked h) s = absurd (none-ne-some _ s)
serve-Phase iters _ d (requested left worked h) s =
    subst (Phase iters) (some-injective _ _ s) (at_work left worked h)
serve-Phase iters _ d (at_work left worked h) s =
    subst (Phase iters) (some-injective _ _ s) (answered left (worked + 1) (omega arith))
serve-Phase iters _ d (answered left worked h) s = absurd (none-ne-some _ s)

-- In every order of the steps, the threads of a process are between two iterations, with a request,
-- at work or with an answer, never with two of these: the work has been done once for each iteration
-- that is over, and once more while its answer waits.
pub Reach-Phase : (iters : ℕ) (e : Exchange) → Reach iters e → Phase iters e
Reach-Phase iters e at_start = between iters 0 (omega arith)
Reach-Phase iters _ (asks {e} {d} r s) = ask-Phase iters e d (Reach-Phase iters e r) s
Reach-Phase iters _ (serves {e} {d} r s) = serve-Phase iters e d (Reach-Phase iters e r) s

-- A thread can make a step, or the round is over.
pub data GoesOn (iters : ℕ) (e : Exchange) : Type 0 where
  finished :
      e.asker.left ≡ 0
      → e.sem ≡ 0
      → e.sem_ret ≡ 0
      → e.working ≡ false
      → e.worked ≡ iters
      → GoesOn iters e
  asker_moves : (d : Exchange) → ask e ≡ some d → GoesOn iters e
  server_moves : (d : Exchange) → serve e ≡ some d → GoesOn iters e

Phase-GoesOn : (iters : ℕ) (e : Exchange) → Phase iters e → GoesOn iters e
unfolding ask serve turn is_possible new_count
Phase-GoesOn iters _ (between zero worked h) = finished refl refl refl refl (omega arith)
Phase-GoesOn iters _ (between (suc left) worked h) = asker_moves _ refl
Phase-GoesOn iters _ (requested left worked h) = server_moves _ refl
Phase-GoesOn iters _ (at_work left worked h) = server_moves _ refl
Phase-GoesOn iters _ (answered left worked h) = asker_moves _ refl

-- In every order of the steps of the two threads of a process, one of them can make a step, or the
-- round is over: the work has been done once for each iteration, and the semaphores are empty.
pub Reach-GoesOn : (iters : ℕ) (e : Exchange) → Reach iters e → GoesOn iters e
Reach-GoesOn iters e r = Phase-GoesOn iters e (Reach-Phase iters e r)
