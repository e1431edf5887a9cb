-- ===== src/Prelude/Words.antt =====
-- Machine integers: the wrap-around of each operation is written out, as a release build has it.
use Prim.Native.Nat.{ℕ, zero, suc, ◌+◌, ◌-◌, ◌*◌, ◌/◌, ◌%◌, ◌^◌, ◌≤◌, ◌<◌, bit_and}
use mathlib.Core.Path.{◌≡◌, ap, ap₂, sym, ◌∙◌}
use native.Mathlib.Nat.{pow-suc, one-le-pow, mod-lt, div-add-mod}
use native.Mathlib.Omega.{arith}
use schtest.Prelude.Bits.{round_down}

abbrev pub u32 : ℕ → ℕ
u32 n = n % 2 ^ 32

abbrev pub u64 : ℕ → ℕ
u64 n = n % 2 ^ 64

-- `a + b`, `a - b` and `!a` on usize and u64; the operands are below 2 ^ 64
abbrev pub add64 : ℕ → ℕ → ℕ
add64 a b = u64 (a + b)

abbrev pub sub64 : ℕ → ℕ → ℕ
sub64 a b = u64 (a + 2 ^ 64 - b)

abbrev pub not64 : ℕ → ℕ
not64 a = 2 ^ 64 - 1 - a

-- `(x + align - 1) & !(align - 1)`
unfoldable pub round_up : ℕ → ℕ → ℕ
round_up x align = bit_and (sub64 (add64 x align) 1) (not64 (sub64 align 1))

-- Adding exponents multiplies the powers.
pub pow-add : (w k : ℕ) → 2 ^ (w + k) ≡ 2 ^ w * 2 ^ k
pow-add zero k = ap (λ (t : ℕ). 2 ^ t) {x = zero + k} {y = k} (omega arith) ∙ omega arith
pow-add (suc w) k = omega (
  arith,
  ap (λ (t : ℕ). 2 ^ t) {x = suc w + k} {y = suc (w + k)} (omega arith),
  pow-suc 2 (w + k),
  ap (λ (t : ℕ). t * 2 ^ k) (pow-suc 2 w),
  pow-add w k,
)

pow-64 : (w k : ℕ) → w + k ≡ 64 → 2 ^ 64 ≡ 2 ^ w * 2 ^ k
pow-64 w k e = ap (λ (t : ℕ). 2 ^ t) (sym e) ∙ pow-add w k

-- With no overflow, `round_up` gives the first multiple of a power of two from `x` on.
pub record Rounded (k x r : ℕ) : Type 0 where
  pub quotient : ℕ
  pub multiple : r ≡ quotient * 2 ^ k
  pub above : x ≤ r
  pub near : r < x + 2 ^ k

quotient_lt : (a b q r : ℕ) → q * b + r < a * b → q < a
quotient_lt a b q r h = grind arith

pred_mul : (a b : ℕ) → 1 ≤ a → (a - 1) * b + b ≡ a * b
pred_mul zero b h = absurd (omega arith)
pred_mul (suc a) b h = omega (arith, ap (λ (t : ℕ). t * b) {x = suc a - 1} {y = a} (omega arith))

round_up-eq :
    (w k x q r : ℕ)
    → w + k ≡ 64
    → x + 2 ^ k ≤ 2 ^ 64
    → r < 2 ^ k
    → x + 2 ^ k ≡ q * 2 ^ k + r + 1
    → round_up x (2 ^ k) ≡ q * 2 ^ k
unfolding round_up
round_up-eq w k x q r e fits hr split =
    ap₂ bit_and masked mask
    ∙ round_down w k q r (quotient_lt (2 ^ w) (2 ^ k) q r (omega (arith, pow-64 w k e))) hr
  where
    masked : sub64 (add64 x (2 ^ k)) 1 ≡ q * 2 ^ k + r
    masked = omega arith

    mask : not64 (sub64 (2 ^ k) 1) ≡ (2 ^ w - 1) * 2 ^ k
    mask = omega (
      arith,
      pow-64 w k e,
      one-le-pow k 2 (omega arith),
      pred_mul (2 ^ w) (2 ^ k) (one-le-pow w 2 (omega arith)),
    )

pub round_up-Rounded :
    (w k x : ℕ) → w + k ≡ 64 → x + 2 ^ k ≤ 2 ^ 64 → Rounded k x (round_up x (2 ^ k))
round_up-Rounded w k x e fits = record {
  quotient = y / 2 ^ k;
  multiple = eq;
  above = omega (arith, eq, parts, small);
  near = omega (arith, eq, parts, small);
}
  where
    positive : 1 ≤ 2 ^ k
    positive = one-le-pow k 2 (omega arith)

    y : ℕ
    y = x + 2 ^ k - 1

    small : y % 2 ^ k < 2 ^ k
    small = mod-lt y positive

    parts : x + 2 ^ k ≡ y / 2 ^ k * 2 ^ k + y % 2 ^ k + 1
    parts = omega (arith, div-add-mod y (2 ^ k), positive)

    eq : round_up x (2 ^ k) ≡ y / 2 ^ k * 2 ^ k
    eq = round_up-eq w k x (y / 2 ^ k) (y % 2 ^ k) e fits small parts
