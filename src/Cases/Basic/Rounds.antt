-- ===== src/Cases/Basic/Rounds.antt =====
-- The steps of the two processes of `ping_pong` in src/cases/basic.rs, in any order.
use schtest.Prelude.{
  ℕ, zero, suc, ◌+◌, ◌-◌, ◌≤◌, ◌≡◌, refl, ap, subst, Bool, true, false, ◌==◌, leb, ◌%◌, ◌^◌, inl,
  inr, some, arith, Option-cases, Bool-cases,
}
use mathlib.Core.Option.{none-ne-some, some-injective}
use schtest.Workloads.Semaphore.{is_possible, new_count}
use schtest.Workloads.Process.{signal, claim}
use schtest.Cases.Basic.{
  Stage, producing, consuming, Side, PingPong, turn, ping_turn, pong_turn, round,
}

-- The states of a round, from both processes at its start, in any order of their steps.
pub data Reach (iters : ℕ) : PingPong → Type 0 where
  at_start : Reach iters (round iters)
  pings : {p q : PingPong} → Reach iters p → ping_turn p ≡ some q → Reach iters q
  pongs : {p q : PingPong} → Reach iters p → pong_turn p ≡ some q → Reach iters q

-- What a process holds back of the iteration it is in.
abbrev ahead : Stage → ℕ
ahead producing = 0
ahead consuming = 1

-- What a process has produced: `own` is still there, the rest the other one has consumed.
record Balance (iters : ℕ) (side other : Side) (own : ℕ) : Type 0 where
  pub within : side.left ≤ iters
  pub busy : ahead side.stage ≤ side.left
  pub small : own ≤ 1
  pub made : own + (iters - other.left) ≡ (iters - side.left) + ahead side.stage

record Inv (iters : ℕ) (p : PingPong) : Type 0 where
  pub ping : Balance iters p.ping p.pong p.sem1
  pub pong : Balance iters p.pong p.ping p.sem2

-- The two kinds of steps.
data Turned (own others : ℕ) : Side → ℕ × ℕ × Side → Type 0 where
  produced :
      (left : ℕ)
      → own ≡ 0
      → Turned own others
          (record { left = suc left; stage = producing })
          (1, others, record { left = suc left; stage = consuming })
  consumed :
      (left : ℕ)
      → others ≡ 1
      → Turned own others
          (record { left = suc left; stage = consuming })
          (own, 0, record { left = left; stage = producing })

produce_once : (own : ℕ) → is_possible signal 1 own ≡ true → own ≤ 1 → own ≡ 0
unfolding is_possible
produce_once own p h = ground arith

consume_once : (others : ℕ) → is_possible claim 1 others ≡ true → others ≤ 1 → others ≡ 1
unfolding is_possible
consume_once others p h = ground arith

made : (own : ℕ) → own ≡ 0 → new_count signal own ≡ 1
unfolding new_count
made own z = ap (new_count signal) z

taken : (others : ℕ) → others ≡ 1 → new_count claim others ≡ 0
unfolding new_count
taken others z = ap (new_count claim) z

turn-Turned :
    (left : ℕ) (stage : Stage) (own others : ℕ) (r : ℕ × ℕ × Side)
    → own ≤ 1
    → others ≤ 1
    → turn (record { left = left; stage = stage }) own others ≡ some r
    → Turned own others (record { left = left; stage = stage }) r
unfolding turn
turn-Turned zero stage own others r h k e = absurd (cc)
turn-Turned (suc left) producing own others r h k e = elim (Bool-cases (is_possible signal 1 own)) [
  | inr n ↦ absurd (none-ne-some _ (rw (n, turn) at e))
  | inl p ↦
      let z = produce_once own p h in
      subst (Turned own others _)
        (subst (λ k. (k, others, record { left = suc left; stage = consuming }) ≡ r) (made own z)
          (some-injective _ _ (rw (p, turn) at e)))
        (produced left z)
]
turn-Turned (suc left) consuming own others r h k e =
    elim (Bool-cases (is_possible claim 1 others)) [
      | inr n ↦ absurd (none-ne-some _ (rw (n, turn) at e))
      | inl p ↦
          let z = consume_once others p k in
          subst (Turned own others _)
            (subst (λ k. (own, k, record { left = left; stage = producing }) ≡ r) (taken others z)
              (some-injective _ _ (rw (p, turn) at e)))
            (consumed left z)
    ]

-- A step of one process, on both balances.
turn-Balance :
    (iters : ℕ) (side other : Side) (own others : ℕ) (r : ℕ × ℕ × Side)
    → Balance iters side other own
    → Balance iters other side others
    → Turned own others side r
    → Balance iters r.2 other r.0 × Balance iters other r.2 r.1
turn-Balance iters _ other own others _ b c (produced left z) = (
  record {
    within = b.within;
    busy = omega arith;
    small = omega arith;
    made = omega (arith, b.made, z);
  },
  record { within = c.within; busy = c.busy; small = c.small; made = c.made },
)
turn-Balance iters _ other own others _ b c (consumed left z) = (
  record {
    within = omega (arith, b.within);
    busy = omega arith;
    small = b.small;
    made = omega (arith, b.made, b.within);
  },
  record {
    within = c.within;
    busy = c.busy;
    small = omega arith;
    made = omega (arith, c.made, b.within, z);
  },
)

Reach-Inv : (iters : ℕ) {p : PingPong} → Reach iters p → Inv iters p
unfolding ping_turn pong_turn
Reach-Inv iters at_start = record {
  ping = record {
    within = omega arith;
    busy = omega arith;
    small = omega arith;
    made = omega arith;
  };
  pong = record {
    within = omega arith;
    busy = omega arith;
    small = omega arith;
    made = omega arith;
  };
}
Reach-Inv iters (pings {p} {q} r e) = elim (Option-cases (turn p.ping p.sem1 p.sem2)) [
  | inl n ↦ absurd (none-ne-some _ (rw (n, ping_turn) at e))
  | inr (t, f) ↦
      let i = Reach-Inv iters r in
      let b =
        turn-Balance iters p.ping p.pong p.sem1 p.sem2 t i.ping i.pong
          (turn-Turned p.ping.left p.ping.stage p.sem1 p.sem2 t i.ping.small i.pong.small f) in
      subst (Inv iters) (some-injective _ _ (rw (f, ping_turn) at e))
        (record { ping = b.0; pong = b.1 })
]
Reach-Inv iters (pongs {p} {q} r e) = elim (Option-cases (turn p.pong p.sem2 p.sem1)) [
  | inl n ↦ absurd (none-ne-some _ (rw (n, pong_turn) at e))
  | inr (t, f) ↦
      let i = Reach-Inv iters r in
      let b =
        turn-Balance iters p.pong p.ping p.sem2 p.sem1 t i.pong i.ping
          (turn-Turned p.pong.left p.pong.stage p.sem2 p.sem1 t i.pong.small i.ping.small f) in
      subst (Inv iters) (some-injective _ _ (rw (f, pong_turn) at e))
        (record { ping = b.1; pong = b.0 })
]

-- Whether a process can make a step.
can : Side → (own others : ℕ) → Bool
can side own others = elim side.left [
  | zero ↦ false
  | suc left ↦ elim side.stage [ producing ↦ own == 0 | consuming ↦ leb 1 others ]
]

can-turn :
    (left : ℕ) (stage : Stage) (own others : ℕ)
    → can (record { left = left; stage = stage }) own others ≡ true
    → (r : ℕ × ℕ × Side) × (turn (record { left = left; stage = stage }) own others ≡ some r)
unfolding can turn is_possible
can-turn zero stage own others h = absurd (cc)
can-turn (suc left) producing own others h = (
  (new_count signal own, others, record { left = suc left; stage = consuming }),
  rw (possible h) refl,
)
  where
    possible : (own == 0) ≡ true → leb ((own + 1) % 2 ^ 32) 1 ≡ true
    possible h = ground arith
can-turn (suc left) consuming own others h =
    ((own, new_count claim others, record { left = left; stage = producing }), rw h refl)

-- Where neither can, both have done their iterations.
stuck :
    (iters l m : ℕ) (a b : Stage) (own others : ℕ)
    → Balance iters (record { left = l; stage = a }) (record { left = m; stage = b }) own
    → Balance iters (record { left = m; stage = b }) (record { left = l; stage = a }) others
    → can (record { left = l; stage = a }) own others ≡ false
    → can (record { left = m; stage = b }) others own ≡ false
    → (l ≡ 0) × (m ≡ 0)
unfolding can
stuck iters zero zero a b own others p q h k = (refl, refl)
stuck iters zero (suc m) a producing own others p q h k =
    absurd (ground (arith, p.busy, p.within, q.within, p.small, q.small, p.made, q.made))
stuck iters zero (suc m) a consuming own others p q h k =
    absurd (ground (arith, p.busy, p.within, q.within, p.small, q.small, p.made, q.made))
stuck iters (suc l) zero producing b own others p q h k =
    absurd (ground (arith, q.busy, p.within, q.within, p.small, q.small, p.made, q.made))
stuck iters (suc l) zero consuming b own others p q h k =
    absurd (ground (arith, q.busy, p.within, q.within, p.small, q.small, p.made, q.made))
stuck iters (suc l) (suc m) producing producing own others p q h k =
    absurd (ground (arith, p.within, q.within, p.small, q.small, p.made, q.made))
stuck iters (suc l) (suc m) producing consuming own others p q h k =
    absurd (ground (arith, p.within, q.within, p.small, q.small, p.made, q.made))
stuck iters (suc l) (suc m) consuming producing own others p q h k =
    absurd (ground (arith, p.within, q.within, p.small, q.small, p.made, q.made))
stuck iters (suc l) (suc m) consuming consuming own others p q h k =
    absurd (ground (arith, p.within, q.within, p.small, q.small, p.made, q.made))

-- A round is over, with empty semaphores, or one of the processes can make a step.
pub data GoesOn (p : PingPong) : Type 0 where
  finished : p.ping.left ≡ 0 → p.pong.left ≡ 0 → p.sem1 ≡ 0 → p.sem2 ≡ 0 → GoesOn p
  ping_moves : (q : PingPong) → ping_turn p ≡ some q → GoesOn p
  pong_moves : (q : PingPong) → pong_turn p ≡ some q → GoesOn p

-- In a round of `ping_pong` for any number of iterations, whatever the order of the steps, the two
-- processes are never stuck: one of them can make a step, or both have done their iterations and the
-- semaphores are empty again.
pub Reach-GoesOn : (iters : ℕ) (p : PingPong) → Reach iters p → GoesOn p
unfolding ping_turn pong_turn
Reach-GoesOn iters p r = elim (Bool-cases (can p.ping p.sem1 p.sem2)) [
  | inl c ↦
      let (t, e) = can-turn p.ping.left p.ping.stage p.sem1 p.sem2 c in
      ping_moves (record { sem1 = t.0; sem2 = t.1; ping = t.2; pong = p.pong })
        (rw (e, ping_turn) refl)
  | inr n ↦ elim (Bool-cases (can p.pong p.sem2 p.sem1)) [
    | inl c ↦
        let (t, e) = can-turn p.pong.left p.pong.stage p.sem2 p.sem1 c in
        pong_moves (record { sem1 = t.1; sem2 = t.0; ping = p.ping; pong = t.2 })
          (rw (e, pong_turn) refl)
    | inr n' ↦ over (
        stuck iters p.ping.left p.pong.left p.ping.stage p.pong.stage p.sem1 p.sem2 i.ping i.pong n
          n')
  ]
]
  where
    i : Inv iters p
    i = Reach-Inv iters r

    over : (p.ping.left ≡ 0) × (p.pong.left ≡ 0) → GoesOn p
    over (l, m) =
        finished l m (omega (arith, i.ping.made, i.ping.busy, l, m))
          (omega (arith, i.pong.made, i.pong.busy, l, m))
