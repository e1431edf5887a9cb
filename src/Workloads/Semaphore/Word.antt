-- ===== src/Workloads/Semaphore/Word.antt =====
-- The word of a semaphore as two fields: the flag at bit 31 and the amount below it.
use schtest.Prelude.{
  ℕ, ◌+◌, ◌-◌, ◌*◌, ◌/◌, ◌%◌, ◌^◌, ◌<◌, ◌≡◌, ltb, arith, bit_and, bit_or, bit_and_high, bit_and_low,
  bit_or_high, ap, ◌∙◌, not,
}
use schtest.Workloads.Semaphore.{waiter, amount_of, has_waiter, mark}

fields : (cur : ℕ) → cur ≡ cur / 2 ^ 31 * 2 ^ 31 + cur % 2 ^ 31
fields cur = omega arith

pub amount_of-eq : (cur : ℕ) → amount_of cur ≡ cur % 2 ^ 31
unfolding amount_of
amount_of-eq cur =
    ap (λ t. bit_and t (2 ^ 31 - 1)) (fields cur)
    ∙ bit_and_low 31 (cur / 2 ^ 31) (cur % 2 ^ 31) (omega arith)

flag-eq : (cur : ℕ) → cur < 2 ^ 32 → bit_and cur waiter ≡ cur / 2 ^ 31 * 2 ^ 31
flag-eq cur h =
    ap (λ t. bit_and t waiter) (fields cur)
    ∙ bit_and_high 31 (cur / 2 ^ 31) 1 (cur % 2 ^ 31) (omega arith)
    ∙ ap (λ (t : ℕ). t * 2 ^ 31) (low (cur / 2 ^ 31) (omega arith))
  where
    low : (q : ℕ) → q < 2 → bit_and q 1 ≡ q
    low q lt = ap (λ t. bit_and t 1) (omega arith) ∙ bit_and_low 1 0 q lt

pub has_waiter-eq : (cur : ℕ) → cur < 2 ^ 32 → has_waiter cur ≡ not (ltb cur waiter)
unfolding has_waiter
has_waiter-eq cur h = ground (arith, flag-eq cur h)

pub mark-eq : (cur : ℕ) → cur < waiter → mark cur ≡ cur + waiter
unfolding mark
mark-eq cur h =
    ap (λ t. bit_or t waiter) {x = cur} {y = 0 * 2 ^ 31 + cur} (omega arith)
    ∙ bit_or_high 31 0 1 cur h
    ∙ omega arith
