-- ===== src/Prelude/Text.antt =====
-- Texts as lists of code points, and what the standard library of Rust does with them.
pub mod Forms
use Prim.Native.Char.{code}
use Prim.Native.String.{String}
use Prim.Native.Nat.{ℕ, zero, suc, ◌+◌, ◌-◌, ◌*◌, ◌^◌, ◌≤◌, ◌<◌}
use mathlib.Core.Path.{◌≡◌, refl, ap, ◌∙◌, sym}
use mathlib.Core.Bool.{Bool, true, false, ◌&&◌, ◌||◌}
use mathlib.Core.Option.{Option, none, some}
use mathlib.Core.List.{List, [], ◌∷◌, ◌++◌}
use native.Mathlib.Omega.{arith}
use schtest.Prelude.Tests.{leb, ltb, ◌==◌, if◌then◌else◌}

abbrev pub codes : String → List ℕ
codes String.[] = []
codes (String.◌∷◌ c s) = code c ∷ codes s

-- `==` on texts
unfoldable pub same_text : List ℕ → List ℕ → Bool
same_text [] [] = true
same_text [] (d ∷ t) = false
same_text (c ∷ s) [] = false
same_text (c ∷ s) (d ∷ t) = c == d && same_text s t

pub same_text_self : (s : List ℕ) → same_text s s ≡ true
unfolding same_text
same_text_self [] = refl
same_text_self (c ∷ s) = ground (arith, same_text_self s)

pub same_text-eq : (s t : List ℕ) → same_text s t ≡ true → s ≡ t
unfolding same_text
same_text-eq [] [] h = refl
same_text-eq [] (d ∷ t) h = ground arith
same_text-eq (c ∷ s) [] h = ground arith
same_text-eq (c ∷ s) (d ∷ t) h = ground (arith, same_text-eq s t)

-- `char::is_whitespace`
unfoldable pub is_whitespace : ℕ → Bool
is_whitespace c =
    (leb 9 c && leb c 13)
    || c == 32
    || c == 133
    || c == 160
    || c == 5760
    || (leb 8192 c && leb c 8202)
    || c == 8232
    || c == 8233
    || c == 8239
    || c == 8287
    || c == 12288

unfoldable pub trim_start : List ℕ → List ℕ
trim_start [] = []
trim_start (c ∷ s) = let rest = trim_start s in if is_whitespace c then rest else c ∷ s

unless_blank : ℕ → List ℕ → List ℕ
unless_blank c [] = if is_whitespace c then [] else c ∷ []
unless_blank c (d ∷ s) = c ∷ d ∷ s

unfoldable pub trim_end : List ℕ → List ℕ
unfolding unless_blank
trim_end [] = []
trim_end (c ∷ s) = unless_blank c (trim_end s)

-- `str::trim`
unfoldable pub trim : List ℕ → List ℕ
unfolding trim_start trim_end
trim s = trim_end (trim_start s)

starts_newline : List ℕ → Bool
starts_newline [] = false
starts_newline (c ∷ s) = c == 10

in_first : ℕ → List (List ℕ) → List (List ℕ)
in_first c [] = (c ∷ []) ∷ []
in_first c (l ∷ ls) = (c ∷ l) ∷ ls

-- `str::lines`: a line ends at a newline, and a carriage return just before that is dropped.
unfoldable pub lines : List ℕ → List (List ℕ)
unfolding starts_newline in_first
lines [] = []
lines (c ∷ s) =
    let rest = lines s in
    if c == 10 then [] ∷ rest else if c == 13 && starts_newline s then rest else in_first c rest

-- The text before the first occurrence of a character, and the text after it.
unfoldable pub split_once : ℕ → List ℕ → Option (List ℕ × List ℕ)
split_once d [] = none
split_once d (c ∷ s) =
    if c == d
    then some ([], s)
    else elim (split_once d s) [ none ↦ none | some (before, after) ↦ some (c ∷ before, after) ]

digit : ℕ → Option ℕ
digit c = if leb 48 c && leb c 57 then some (c - 48) else none

checked : ℕ → Option ℕ
checked n = if ltb n (2 ^ 64) then some n else none

unfoldable pub digits_from : ℕ → List ℕ → Option ℕ
unfolding digit checked
digits_from acc [] = some acc
digits_from acc (c ∷ s) = elim (digit c) [
  | none ↦ none
  | some d ↦ elim (checked (acc * 10 + d)) [ none ↦ none | some n ↦ digits_from n s ]
]

-- `parse::<u64>`: an optional plus sign and at least one digit, without overflow.
unfoldable pub parse_u64 : List ℕ → Option ℕ
unfolding digits_from
parse_u64 [] = none
parse_u64 (c ∷ []) = if c == 43 then none else digits_from 0 (c ∷ [])
parse_u64 (c ∷ d ∷ s) = if c == 43 then digits_from 0 (d ∷ s) else digits_from 0 (c ∷ d ∷ s)

-- The digits of a number, without a sign.
pub data Decimal : List ℕ → ℕ → Type 0 where
  one : (d : ℕ) → d < 10 → Decimal ((48 + d) ∷ []) d
  snoc : (s : List ℕ) (n d : ℕ) → Decimal s n → d < 10 → Decimal (s ++ ((48 + d) ∷ [])) (n * 10 + d)

parse_ok : parse_u64 (codes "1024") ≡ some 1024
unfolding parse_u64
parse_ok = refl

lines_ok : lines (codes "a:1\r\nbc\n\nd") ≡ codes "a:1" ∷ codes "bc" ∷ [] ∷ codes "d" ∷ []
unfolding lines
lines_ok = refl

trim_ok : trim (codes "  a b\t") ≡ codes "a b"
unfolding trim is_whitespace
trim_ok = refl
