-- ===== src/Util/Stats/Estimates/Tests.antt =====
-- Estimates over numbers in thousandths, with the operations on natural numbers.
use schtest.Prelude.{
  ℕ, ◌+◌, ◌-◌, ◌*◌, ◌/◌, ◌^◌, ◌≡◌, refl, Bool, true, false, some, none, [], ◌∷◌, arith, min, max,
  ltb, leb, ◌==◌, ◌||◌, ◌++◌,
}
use schtest.Util.Stats.Estimates.{
  Floats, f64_value, Quantiles, percentile, interpolate_value, merge_quantiles, similarity, shown,
  width, contains,
}
use schtest.Util.Stats.Estimates.Brackets.{Total, PercentileAs, percentile-PercentileAs}
use schtest.Util.Stats.Estimates.Merged.{Order, IsStrict, percentiles, merge_quantiles-IsStrict}
use schtest.Util.Stats.Estimates.Similar.{Cancels, similarity_self, shown-append}

abbrev f : Floats ℕ
f = record {
  add = λ a b. a + b;
  sub = λ a b. a - b;
  mul = λ a b. a * b / 1000;
  div = λ a b. a * 1000 / b;
  abs = λ a. a;
  min = min;
  max = max;
  lt = ltb;
  le = leb;
  eq = λ a b. a == b;
  decimal = λ m k. m * 1000 / 10 ^ k;
  epsilon = 1;
}

abbrev is_nan : ℕ → Bool
is_nan a = false

abbrev is_finite : ℕ → Bool
is_finite a = true

total : Total ℕ f is_nan
total a b m n = ground arith

order : Order ℕ f is_nan
order = record {
  trichotomy = λ a b m n. ground arith;
  lt_trans = λ a b c h k. ground arith;
  eq_sym = λ a b. ground arith;
  eq_trans = λ a b c h k. ground arith;
}

cancels : Cancels ℕ f is_finite is_nan
cancels = record {
  sub_self = λ x h. omega arith;
  add_nothing = λ w h. omega arith;
  no_part = λ r n h. omega arith;
  sub_zero = refl;
}

abbrev first : Quantiles ℕ ℕ
first = (100, 5) ∷ (500, 10) ∷ (900, 20) ∷ []

abbrev second : Quantiles ℕ ℕ
second = (500, 8) ∷ (990, 30) ∷ []

merged : percentiles (merge_quantiles f first second) ≡ 100 ∷ 500 ∷ 900 ∷ 990 ∷ []
unfolding merge_quantiles
merged = refl

at_700 : interpolate_value f first 700 ≡ 15
unfolding interpolate_value
at_700 = refl

percentile-PercentileAs_example :
    PercentileAs f is_nan total
      (f64_value ℕ)
      (100, 5)
      ((500, 10) ∷ (900, 20) ∷ [])
      700
      (percentile f (f64_value ℕ) (record { count = 3; quantiles = first }) 700)
percentile-PercentileAs_example =
    percentile-PercentileAs f is_nan total (f64_value ℕ) 3 (100, 5) ((500, 10) ∷ (900, 20) ∷ []) 700
      refl refl

merge_quantiles-IsStrict_example :
    IsStrict f (percentiles (merge_quantiles f first second))
    × ((r : ℕ)
        → contains f r (percentiles (merge_quantiles f first second))
          ≡ (contains f r (percentiles first) || contains f r (percentiles second)))
merge_quantiles-IsStrict_example = merge_quantiles-IsStrict f is_nan order first second refl refl

same_estimates :
    similarity f
      (f64_value ℕ)
      (record { count = 3; quantiles = first })
      (record { count = 3; quantiles = first })
    ≡ some 1000
unfolding width merge_quantiles
same_estimates =
    similarity_self f is_finite is_nan cancels (f64_value ℕ) 3 (100, 5) ((500, 10) ∷ (900, 20) ∷ [])
      refl ((refl, (300, refl, refl), (refl, (400, refl, refl), (refl, (300, refl, refl), tt))))

all_but_last :
    (shown f {T = ℕ} [] ≡ none)
    × (shown f {T = ℕ} (((500, 8) ∷ []) ++ ((990, 30) ∷ [])) ≡ some ((50000, 8) ∷ []))
all_but_last = shown-append f ((500, 8) ∷ []) (990, 30)
