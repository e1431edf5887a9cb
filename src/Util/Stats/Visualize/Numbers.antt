-- ===== src/Util/Stats/Visualize/Numbers.antt =====
-- Numbers for examples: in ten millionths, where a large number stands for a NaN, with a screen of 40
-- columns and a digest that keeps all values.
use schtest.Prelude.{
  ℕ, ◌+◌, ◌-◌, ◌*◌, ◌/◌, ◌^◌, Bool, ◌&&◌, some, List, [], ◌∷◌, ◌++◌, min, max, ltb, leb, ◌==◌,
  get_elem?, length, unwrap_or,
}
use schtest.Util.Stats.Distribution.{Digest}
use schtest.Util.Stats.Estimates.{Floats}
use schtest.Util.Stats.Visualize.{Screen}

abbrev pub unit : ℕ
unit = 10 ^ 7

abbrev pub nan : ℕ
nan = 10 ^ 12

abbrev pub is_number : ℕ → Bool
is_number a = ltb a nan

abbrev pub f : Floats ℕ
f = record {
  add = λ a b. a + b;
  sub = λ a b. (a - b) + (b - a);
  mul = λ a b. a * b / unit;
  div = λ a b. a * unit / b;
  abs = λ a. a;
  min = min;
  max = max;
  lt = λ a b. is_number a && is_number b && ltb a b;
  le = λ a b. is_number a && is_number b && leb a b;
  eq = λ a b. is_number a && is_number b && a == b;
  decimal = λ m k. m * unit / 10 ^ k;
  epsilon = 1;
}

abbrev pub screen : Screen ℕ ℕ
screen = record {
  of_usize = λ n. n * unit;
  round_as_usize = λ x. (x + unit / 2) / unit;
  clamp = λ x low high. max low (min x high);
  debug = λ v. (48 + v / unit) ∷ [];
  columns = some 40;
}

abbrev pub digest : Digest ℕ (List ℕ)
digest = record {
  new_with_size = λ n. [];
  merge_unsorted = λ d values. d ++ values;
  estimate_quantile = λ d p. unwrap_or (get_elem? d (p * length d / unit)) 0;
  count = length;
}
