-- ===== src/Prelude/Bits.antt =====
-- The bits of a machine word, and what `&` and `|` do to them.
use Prim.Native.Nat.{
  ℕ, zero, suc, ◌+◌, ◌-◌, ◌*◌, ◌/◌, ◌%◌, ◌^◌, ◌≤◌, ◌<◌, min, max, bit_and, bit_or, digits,
  bit_and-bitwise, bit_or-bitwise,
}
use mathlib.Core.Path.{◌≡◌, refl, ap, ◌∙◌}
use mathlib.Core.Logic.{◌≢◌}
use native.Mathlib.Nat.{pow-suc}
use native.Mathlib.Omega.{arith}

-- One lemma for both operations: the fuel of the digit recursion does not matter once it covers
-- the first argument.
module _ (edge : ℕ → ℕ) (join : ℕ → ℕ → ℕ) where
  spare_fuel :
      (a b have need : ℕ)
      → a ≤ need
      → need ≤ have
      → digits edge join have a b ≡ digits edge join need a b
  spare_fuel zero b zero zero small most = refl
  spare_fuel zero b (suc have) zero small most = refl
  spare_fuel zero b (suc have) (suc need) small most = refl
  spare_fuel (suc a) b (suc have) (suc need) small most =
      omega (arith, spare_fuel (suc a / 2) (b / 2) have need (omega arith) (omega arith))
  spare_fuel a b have need small most = absurd (omega arith)

zero-bit_and : (b : ℕ) → bit_and 0 b ≡ 0
zero-bit_and b = bit_and-bitwise 0 b

zero-bit_or : (b : ℕ) → bit_or 0 b ≡ b
zero-bit_or b = bit_or-bitwise 0 b

bit_and-halves : (a b : ℕ) → bit_and a b ≡ bit_and (a / 2) (b / 2) * 2 + min (a % 2) (b % 2)
bit_and-halves zero b = omega (arith, zero-bit_and b, zero-bit_and (b / 2))
bit_and-halves (suc a) b = omega (
  arith,
  bit_and-bitwise (suc a) b,
  bit_and-bitwise (suc a / 2) (b / 2),
  spare_fuel (λ b. zero) min (suc a / 2) (b / 2) a (suc a / 2) (omega arith) (omega arith),
)

bit_or-halves : (a b : ℕ) → bit_or a b ≡ bit_or (a / 2) (b / 2) * 2 + max (a % 2) (b % 2)
bit_or-halves zero b = omega (arith, zero-bit_or b, zero-bit_or (b / 2))
bit_or-halves (suc a) b = omega (
  arith,
  bit_or-bitwise (suc a) b,
  bit_or-bitwise (suc a / 2) (b / 2),
  spare_fuel (λ b. b) max (suc a / 2) (b / 2) a (suc a / 2) (omega arith) (omega arith),
)

-- bit `i` of `x`, as 0 or 1
abbrev pub bit : ℕ → ℕ → ℕ
bit x zero = x % 2
bit x (suc i) = bit (x / 2) i

pub bit-bit_or : (i a b : ℕ) → bit (bit_or a b) i ≡ max (bit a i) (bit b i)
bit-bit_or zero a b = omega (arith, bit_or-halves a b)
bit-bit_or (suc i) a b =
    ap (λ t. bit t i) (omega (arith, bit_or-halves a b)) ∙ bit-bit_or i (a / 2) (b / 2)

double-pow : (q k : ℕ) → q * 2 ^ suc k ≡ q * 2 ^ k * 2
double-pow q k = omega (arith, ap (λ (t : ℕ). q * t) (pow-suc 2 k))

bit_and-zero : (n a : ℕ) → a ≤ n → bit_and a 0 ≡ 0
bit_and-zero n zero h = zero-bit_and 0
bit_and-zero zero (suc a) h = absurd (omega arith)
bit_and-zero (suc n) (suc a) h =
    omega (arith, bit_and-halves (suc a) 0, bit_and-zero n (suc a / 2) (omega arith))

bit_or-zero : (n a : ℕ) → a ≤ n → bit_or a 0 ≡ a
bit_or-zero n zero h = zero-bit_or 0
bit_or-zero zero (suc a) h = absurd (omega arith)
bit_or-zero (suc n) (suc a) h =
    omega (arith, bit_or-halves (suc a) 0, bit_or-zero n (suc a / 2) (omega arith))

-- A mask whose low `k` bits are clear clears the low field of a word.
pub bit_and_high :
    (k q m r : ℕ) → r < 2 ^ k → bit_and (q * 2 ^ k + r) (m * 2 ^ k) ≡ bit_and q m * 2 ^ k
bit_and_high zero q m r h =
    ground (arith, ap (λ t. bit_and t m) {x = q * 1 + r} {y = q} (omega arith))
bit_and_high (suc k) q m r h = ground (
  arith,
  bit_and-halves (q * 2 ^ suc k + r) (m * 2 ^ suc k),
  double-pow q k,
  double-pow m k,
  double-pow (bit_and q m) k,
  pow-suc 2 k,
  bit_and_high k q m (r / 2) (omega (arith, pow-suc 2 k)),
)

-- A mask of `k` ones keeps the low field of a word.
pub bit_and_low : (k q r : ℕ) → r < 2 ^ k → bit_and (q * 2 ^ k + r) (2 ^ k - 1) ≡ r
bit_and_low zero q r h = ground (arith, bit_and-zero (q * 1 + r) (q * 1 + r))
bit_and_low (suc k) q r h = ground (
  arith,
  bit_and-halves (q * 2 ^ suc k + r) (2 ^ suc k - 1),
  double-pow q k,
  pow-suc 2 k,
  bit_and_low k q (r / 2) (omega (arith, pow-suc 2 k)),
)

-- Or-ing high bits in leaves the low field alone.
pub bit_or_high :
    (k q m r : ℕ) → r < 2 ^ k → bit_or (q * 2 ^ k + r) (m * 2 ^ k) ≡ bit_or q m * 2 ^ k + r
bit_or_high zero q m r h =
    ground (arith, ap (λ t. bit_or t m) {x = q * 1 + r} {y = q} (omega arith))
bit_or_high (suc k) q m r h = ground (
  arith,
  bit_or-halves (q * 2 ^ suc k + r) (m * 2 ^ suc k),
  double-pow q k,
  double-pow m k,
  double-pow (bit_or q m) k,
  pow-suc 2 k,
  bit_or_high k q m (r / 2) (omega (arith, pow-suc 2 k)),
)

-- `|` of two words of `w` bits has `w` bits.
pub bit_or-lt : (w a b : ℕ) → a < 2 ^ w → b < 2 ^ w → bit_or a b < 2 ^ w
bit_or-lt zero a b ha hb = ground (arith, zero-bit_or 0)
bit_or-lt (suc w) a b ha hb = omega (
  arith,
  bit_or-halves a b,
  pow-suc 2 w,
  bit_or-lt w (a / 2) (b / 2) (omega (arith, pow-suc 2 w)) (omega (arith, pow-suc 2 w)),
)

-- A power of two has one bit.
pub bit-pow_self : (i : ℕ) → bit (2 ^ i) i ≡ 1
bit-pow_self zero = refl
bit-pow_self (suc i) = ap (λ t. bit t i) (omega (arith, pow-suc 2 i)) ∙ bit-pow_self i

pub bit-zero : (i : ℕ) → bit 0 i ≡ 0
bit-zero zero = refl
bit-zero (suc i) = bit-zero i

pub bit-pow_ne : (i j : ℕ) → i ≢ j → bit (2 ^ i) j ≡ 0
bit-pow_ne zero zero h = absurd (h refl)
bit-pow_ne zero (suc j) h = bit-zero j
bit-pow_ne (suc i) zero h = omega (arith, pow-suc 2 i)
bit-pow_ne (suc i) (suc j) h =
    ap (λ t. bit t j) (omega (arith, pow-suc 2 i)) ∙ bit-pow_ne i j (λ e. h (ap suc e))

-- Rounding down to a multiple of `2 ^ k` by a mask in a word of `w + k` bits, in two parts:
-- the result is a multiple, and at most `2 ^ k - 1` below.
pub round_down :
    (w k q r : ℕ)
    → q < 2 ^ w
    → r < 2 ^ k
    → bit_and (q * 2 ^ k + r) ((2 ^ w - 1) * 2 ^ k) ≡ q * 2 ^ k
round_down w k q r hq hr =
    bit_and_high k q (2 ^ w - 1) r hr
    ∙ ap (λ (t : ℕ). t * 2 ^ k)
        (ap (λ t. bit_and t (2 ^ w - 1)) (omega arith) ∙ bit_and_low w 0 q hq)
