-- ===== src/Workloads/Spinner.antt =====
-- src/workloads/spinner.rs: a loop that notes the CPU it runs on. Each round of it reads the clock
-- and, if the time is not over, asks for the CPU; the readings are given in order.
use schtest.Prelude.{
  ℕ, ◌≡◌, refl, true, false, Option, none, some, List, [], ◌∷◌, ◌++◌, if◌then◌else◌, ltb, All,
}

pub record Spinner : Type 0 where
  pub cpu_id : ℕ

pub default : Spinner
default = record { cpu_id = 0 }

pub last_cpu : Spinner → ℕ
last_cpu s = s.cpu_id

-- A round: the time since the start, and the answer of `sched_getcpu`, none if it is negative.
pub record Reading : Type 0 where
  pub elapsed : ℕ
  pub cpu : Option ℕ

abbrev pub store : Option ℕ → Spinner → Spinner
store none s = s
store (some cpu) s = record { cpu_id = cpu }

-- `none` is a loop that goes on after the readings.
pub spin : ℕ → List Reading → Spinner → Option Spinner
spin duration [] s = none
spin duration (r ∷ rs) s =
    let rest = spin duration rs (store r.cpu s) in if ltb r.elapsed duration then rest else some s

abbrev store_all : List Reading → Spinner → Spinner
store_all [] s = s
store_all (r ∷ rs) s = store_all rs (store r.cpu s)

-- A spin ends at the first reading that is not before the end, with the last CPU that was reported
-- before it.
pub spin-store_all :
    (duration : ℕ) (before after : List Reading) (r : Reading) (s : Spinner)
    → All (λ (b : Reading). ltb b.elapsed duration ≡ true) before
    → ltb r.elapsed duration ≡ false
    → spin duration (before ++ (r ∷ after)) s ≡ some (store_all before s)
unfolding spin
spin-store_all duration [] after r s h e = rw e refl
spin-store_all duration (b ∷ before) after r s h e =
    rw h.0 (spin-store_all duration before after r (store b.cpu s) h.1 e)
