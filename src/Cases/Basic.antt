-- ===== src/Cases/Basic.antt =====
-- src/cases/basic.rs: the masks of `ping_pong`, the test of what a machine allows, and the rounds
-- of its two processes over two semaphores with a maximum of one. A call of a semaphore is one
-- step here, which it makes when it is possible: the step of its success in Workloads/Semaphore.
pub mod Bench
pub mod Rounds
pub mod Masks
mod Tests
use schtest.Prelude.{
  ℕ, zero, suc, Bool, true, false, Option, none, some, List, [], ◌∷◌, if◌then◌else◌, length, ltb,
}
use schtest.Util.System.{
  Mask, Core, Hyperthread, CoreComplex, Node, System, hyperthread_mask, core_mask, complex_mask,
  node_mask, system_mask, complexes,
}
use schtest.Workloads.Semaphore.{is_possible, new_count}
use schtest.Workloads.Process.{signal, claim}

pub data WakeType : Type 0 where
  same_hyperthread same_core same_complex same_node unpinned : WakeType

-- `first().unwrap()`; `none` is a panic.
abbrev pub first {ℓ κ} : {A : Type ℓ} {B : Type κ} → List A → (A → Option B) → Option B
first [] k = none
first (x ∷ xs) k = k x

-- The mask that `ping_pong` pins to, itself none if a CPU is past the end of the set.
pub chosen_mask : WakeType → System → Option (Option Mask)
chosen_mask same_hyperthread s =
    first s.all_cores (λ c. first c.hyperthreads (λ h. some (hyperthread_mask h)))
chosen_mask same_core s = first s.all_cores (λ c. some (core_mask c))
chosen_mask same_complex s = first s.nodes (λ n. first n.complexes (λ c. some (complex_mask c)))
chosen_mask same_node s = first s.nodes (λ n. some (node_mask n))
chosen_mask unpinned s = some (system_mask s)

-- `check_wake_type`; false is an error.
pub check_wake_type : WakeType → System → Option Bool
check_wake_type same_hyperthread s = first s.all_cores (λ c. some (ltb 1 (length c.hyperthreads)))
check_wake_type same_core s = some (ltb 1 (length s.all_cores))
check_wake_type same_complex s = some (ltb 1 (complexes s))
check_wake_type same_node s = some (ltb 1 (length s.nodes))
check_wake_type unpinned s = some true

-- A process in its loop: about to `produce` or to `consume`, with the iterations that it has left.
pub data Stage : Type 0 where
  producing consuming : Stage

pub record Side : Type 0 where
  pub left : ℕ
  pub stage : Stage

pub record PingPong : Type 0 where
  pub sem1 : ℕ
  pub sem2 : ℕ
  pub ping : Side
  pub pong : Side

-- One step of a process over the amounts of its own semaphore and of the other one's; none if it
-- has to wait, or has no iterations left.
unfoldable pub turn : Side → (own other : ℕ) → Option (ℕ × ℕ × Side)
turn side own other = elim side.left [
  | zero ↦ none
  | suc left ↦ elim side.stage [
    | producing ↦
        if is_possible signal 1 own
        then some (new_count signal own, other, record { left = suc left; stage = consuming })
        else none
    | consuming ↦
        if is_possible claim 1 other
        then some (own, new_count claim other, record { left = left; stage = producing })
        else none
  ]
]

pub ping_turn : PingPong → Option PingPong
unfolding turn
ping_turn p = elim (turn p.ping p.sem1 p.sem2) [
  | none ↦ none
  | some (own, other, side) ↦ some (record { sem1 = own; sem2 = other; ping = side; pong = p.pong })
]

pub pong_turn : PingPong → Option PingPong
unfolding turn
pong_turn p = elim (turn p.pong p.sem2 p.sem1) [
  | none ↦ none
  | some (own, other, side) ↦ some (record { sem1 = other; sem2 = own; ping = p.ping; pong = side })
]

-- Both processes at the start of a round.
abbrev pub round : ℕ → PingPong
round iters = record {
  sem1 = 0;
  sem2 = 0;
  ping = record { left = iters; stage = producing };
  pong = record { left = iters; stage = producing };
}
