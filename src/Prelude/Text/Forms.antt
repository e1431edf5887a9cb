-- ===== src/Prelude/Text/Forms.antt =====
-- Trimming, splitting and parsing of texts that are laid out as the kernel does it.
use Prim.Native.Nat.{ℕ, zero, suc, ◌+◌, ◌-◌, ◌*◌, ◌^◌, ◌<◌}
use mathlib.Core.Path.{◌≡◌, refl, ap, ◌∙◌, sym}
use mathlib.Core.Logic.{◌≢◌}
use mathlib.Core.Bool.{Bool, true, ◌&&◌, not}
use mathlib.Core.Option.{some}
use mathlib.Core.List.{List, [], ◌∷◌, ◌++◌, append-nil}
use native.Mathlib.Omega.{arith}
use schtest.Prelude.Lists.{replicate}
use schtest.Prelude.Tests.{◌==◌}
use schtest.Prelude.Text.{
  is_whitespace, trim_start, unless_blank, trim_end, trim, starts_newline, in_first, lines,
  split_once, digit, checked, digits_from, parse_u64, Decimal, one, snoc,
}

-- a text without whitespace
unfoldable pub is_solid : List ℕ → Bool
is_solid [] = true
is_solid (c ∷ s) = not (is_whitespace c) && is_solid s

-- a text without a character
unfoldable pub is_free_of : ℕ → List ℕ → Bool
is_free_of d [] = true
is_free_of d (c ∷ s) = not (c == d) && is_free_of d s

unfoldable pub spaces : ℕ → List ℕ
spaces k = replicate k 32

trim_start-spaces : (k : ℕ) (s : List ℕ) → trim_start (spaces k ++ s) ≡ trim_start s
unfolding trim_start is_whitespace spaces
trim_start-spaces zero s = refl
trim_start-spaces (suc k) s = trim_start-spaces k s

trim_end-spaces : (k : ℕ) → trim_end (spaces k) ≡ []
unfolding trim_end unless_blank is_whitespace spaces
trim_end-spaces zero = refl
trim_end-spaces (suc k) = ap (unless_blank 32) (trim_end-spaces k)

solid_head : (c : ℕ) (s : List ℕ) → is_solid (c ∷ s) ≡ true → unless_blank c s ≡ c ∷ s
unfolding unless_blank is_solid
solid_head c [] h = ground arith
solid_head c (d ∷ s) h = refl

solid_tail : (c : ℕ) (s : List ℕ) → is_solid (c ∷ s) ≡ true → is_solid s ≡ true
unfolding is_solid
solid_tail c s h = ground arith

trim_end-is_solid : (s : List ℕ) (k : ℕ) → is_solid s ≡ true → trim_end (s ++ spaces k) ≡ s
unfolding trim_end
trim_end-is_solid [] k h = trim_end-spaces k
trim_end-is_solid (c ∷ s) k h =
    ap (unless_blank c) (trim_end-is_solid s k (solid_tail c s h)) ∙ solid_head c s h

trim_start-solid_head :
    (c : ℕ) (s t : List ℕ) → is_solid (c ∷ s) ≡ true → trim_start ((c ∷ s) ++ t) ≡ (c ∷ s) ++ t
unfolding trim_start is_solid
trim_start-solid_head c s t h = ground arith

-- A text without whitespace is what is left of it between spaces.
pub trim-spaces :
    (j k c : ℕ) (s : List ℕ)
    → is_solid (c ∷ s) ≡ true
    → trim (spaces j ++ ((c ∷ s) ++ spaces k)) ≡ c ∷ s
unfolding trim
trim-spaces j k c s h =
    ap trim_end (trim_start-spaces j ((c ∷ s) ++ spaces k) ∙ trim_start-solid_head c s (spaces k) h)
    ∙ trim_end-is_solid (c ∷ s) k h

trim-blank : (k : ℕ) → trim ([] ++ spaces k) ≡ []
unfolding trim trim_start trim_end is_whitespace spaces
trim-blank zero = refl
trim-blank (suc k) = trim-blank k

pub trim-padded : (s : List ℕ) (k : ℕ) → is_solid s ≡ true → trim (s ++ spaces k) ≡ s
unfolding spaces
trim-padded [] k h = trim-blank k
trim-padded (c ∷ s) k h = trim-spaces 0 k c s h

pub trim-indented :
    (k c : ℕ) (s : List ℕ) → is_solid (c ∷ s) ≡ true → trim (spaces k ++ (c ∷ s)) ≡ c ∷ s
unfolding spaces
trim-indented k c s h =
    ap (λ t. trim (spaces k ++ t)) (sym (append-nil (c ∷ s))) ∙ trim-spaces k 0 c s h

pub split_once-append :
    (d : ℕ) (s t : List ℕ) → is_free_of d s ≡ true → split_once d (s ++ (d ∷ t)) ≡ some (s, t)
unfolding split_once is_free_of
split_once-append d [] t h = ground arith
split_once-append d (c ∷ s) t h = ground (arith, split_once-append d s t)

-- Up to its newline, a text without line breaks is the first line.
pub lines-append :
    (s t : List ℕ)
    → is_free_of 10 s ≡ true
    → is_free_of 13 s ≡ true
    → lines (s ++ (10 ∷ t)) ≡ s ∷ lines t
unfolding lines in_first starts_newline is_free_of
lines-append [] t h k = refl
lines-append (c ∷ s) t h k = ground (arith, lines-append s t)

is_solid-append : (s t : List ℕ) → is_solid s ≡ true → is_solid t ≡ true → is_solid (s ++ t) ≡ true
unfolding is_solid
is_solid-append [] t h k = k
is_solid-append (c ∷ s) t h k = ground (arith, is_solid-append s t)

pub is_free_of-append :
    (d : ℕ) (s t : List ℕ)
    → is_free_of d s ≡ true
    → is_free_of d t ≡ true
    → is_free_of d (s ++ t) ≡ true
unfolding is_free_of
is_free_of-append d [] t h k = k
is_free_of-append d (c ∷ s) t h k = ground (arith, is_free_of-append d s t)

pub is_free_of-spaces : (d k : ℕ) → d ≢ 32 → is_free_of d (spaces k) ≡ true
unfolding is_free_of spaces
is_free_of-spaces d zero h = refl
is_free_of-spaces d (suc k) h = ground (arith, is_free_of-spaces d k h)

solid_digit : (d : ℕ) → d < 10 → is_solid ((48 + d) ∷ []) ≡ true
unfolding is_solid is_whitespace
solid_digit d h = ground arith

pub Decimal-is_solid : {s : List ℕ} {n : ℕ} → Decimal s n → is_solid s ≡ true
Decimal-is_solid (one d h) = solid_digit d h
Decimal-is_solid (snoc s n d p h) =
    is_solid-append s ((48 + d) ∷ []) (Decimal-is_solid p) (solid_digit d h)

pub Decimal-is_free_of : {s : List ℕ} {n : ℕ} (c : ℕ) → c < 48 → Decimal s n → is_free_of c s ≡ true
unfolding is_free_of
Decimal-is_free_of c k (one d h) = ground arith
Decimal-is_free_of c k (snoc s n d p h) =
    is_free_of-append c s ((48 + d) ∷ []) (Decimal-is_free_of c k p) (ground arith)

digits_from-append :
    (s t : List ℕ) (acc m : ℕ)
    → digits_from acc s ≡ some m
    → digits_from acc (s ++ t) ≡ digits_from m t
unfolding digits_from
digits_from-append [] t acc m h = ground arith
digits_from-append (c ∷ s) t acc m h =
    ground (arith, digits_from-append s t (acc * 10 + (c - 48)) m)

-- The digits of a number below 2 ^ 64 give the number back.
pub digits_from-Decimal : {s : List ℕ} {n : ℕ} → Decimal s n → n < 2 ^ 64 → digits_from 0 s ≡ some n
unfolding digits_from digit checked
digits_from-Decimal (one d h) k = ground arith
digits_from-Decimal (snoc s n d p h) k =
    digits_from-append s ((48 + d) ∷ []) 0 n (digits_from-Decimal p (omega arith)) ∙ last n d h k
  where
    last :
        (n d : ℕ) → d < 10 → n * 10 + d < 2 ^ 64 → digits_from n ((48 + d) ∷ []) ≡ some (n * 10 + d)
    last n d h k = ground arith

unsigned :
    (c : ℕ) (s : List ℕ) → is_free_of 43 (c ∷ s) ≡ true → parse_u64 (c ∷ s) ≡ digits_from 0 (c ∷ s)
unfolding parse_u64 is_free_of
unsigned c [] h = ground arith
unsigned c (d ∷ s) h = ground arith

-- Printed and parsed, a number below 2 ^ 64 comes back.
pub parse_u64-Decimal :
    {c n : ℕ} {s : List ℕ} → Decimal (c ∷ s) n → n < 2 ^ 64 → parse_u64 (c ∷ s) ≡ some n
parse_u64-Decimal {c} {n} {s} p h =
    unsigned c s (Decimal-is_free_of 43 (omega arith) p) ∙ digits_from-Decimal p h
