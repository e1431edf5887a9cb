-- ===== src/Util/Stats/Estimates.antt =====
-- src/util/stats.rs: estimates of a distribution, and how two of them are compared.
-- Floating-point numbers are a parameter with their operations; `none` is a panic of an index.
pub mod Brackets
pub mod Merged
pub mod Similar
mod Tests
use schtest.Prelude.{
  ℕ, zero, suc, ◌+◌, ◌-◌, ◌*◌, ◌^◌, ◌==◌, Bool, true, false, ◌&&◌, Option, none, some, List, [],
  ◌∷◌, ◌++◌, map, if◌then◌else◌, get_elem?, length,
}

-- The operations of f64; `decimal m k` is the literal of m / 10 ^ k.
pub record Floats (F : Type 0) : Type 0 where
  pub add : F → F → F
  pub sub : F → F → F
  pub mul : F → F → F
  pub div : F → F → F
  pub abs : F → F
  pub min : F → F → F
  pub max : F → F → F
  pub lt : F → F → Bool
  pub le : F → F → Bool
  pub eq : F → F → Bool
  pub decimal : ℕ → ℕ → F
  pub epsilon : F

-- A type with `DistributionValue`, by its conversions from and to f64 as `to_f64`, `percentile` and
-- `estimates` make them.
pub record Value (F T : Type 0) : Type 0 where
  pub to_f64 : T → F
  pub of_f64 : F → T

-- The bits of an f64 give it back.
abbrev pub f64_value : (F : Type 0) → Value F F
f64_value F = record { to_f64 = λ v. v; of_f64 = λ v. v }

-- A Duration, as its nanoseconds.
abbrev pub duration_value :
    {F : Type 0} → Floats F → (as_secs_f64 : ℕ → F) → (as_u64 : F → ℕ) → Value F ℕ
duration_value f as_secs_f64 as_u64 = record {
  to_f64 = as_secs_f64;
  of_f64 = λ v. as_u64 (f.mul v (f.decimal (10 ^ 9) 0));
}

-- The quantiles of `Estimates`: percentiles with their values.
abbrev pub Quantiles : Type 0 → Type 0 → Type 0
Quantiles F T = List (F × T)

pub record Estimates (F T : Type 0) : Type 0 where
  pub count : ℕ
  pub quantiles : Quantiles F T

unfoldable pub last {ℓ} : {A : Type ℓ} → A → List A → A
last x [] = x
last x (y ∷ ys) = last y ys

module _ {F : Type 0} (f : Floats F) where
  abbrev zero_f : F
  zero_f = f.decimal 0 0

  abbrev one_f : F
  one_f = f.decimal 1 0

  abbrev halved : F → F
  halved v = f.div v (f.decimal 2 0)

  -- `Distribution::estimates`, over the quantiles and the count of the digest.
  abbrev pub value_at : {T : Type 0} → Value F T → (F → F) → F → F × T
  value_at t estimate_quantile p = (p, t.of_f64 (estimate_quantile p))

  unfoldable pub estimates :
      {T : Type 0} → Value F T → (estimate_quantile : F → F) → (count : ℕ) → Estimates F T
  estimates t estimate_quantile count = record {
    count = count;
    quantiles = map (value_at t estimate_quantile) (
        f.decimal 1 3
        ∷ f.decimal 1 2
        ∷ f.decimal 1 1
        ∷ f.decimal 5 1
        ∷ f.decimal 9 1
        ∷ f.decimal 99 2
        ∷ f.decimal 999 3
        ∷ []);
  }

  abbrev pub in_segment : F → F → F → Bool
  in_segment percentile p1 p2 = f.le p1 percentile && f.le percentile p2

  module _ {T : Type 0} (t : Value F T) where
    -- `find` for a percentile within EPSILON
    pub find_exact : F → Quantiles F T → Option T
    find_exact percentile [] = none
    find_exact percentile ((p, v) ∷ qs) =
        if f.lt (f.abs (f.sub p percentile)) f.epsilon then some v else find_exact percentile qs

    -- The value between two quantiles, as `percentile` forms it.
    abbrev pub between : F → F × T → F × T → T
    between percentile (p1, v1) (p2, v2) =
        let factor = f.div (f.sub percentile p1) (f.sub p2 p1) in
        t.of_f64 (f.add (t.to_f64 v1) (f.mul (f.sub (t.to_f64 v2) (t.to_f64 v1)) factor))

    -- The loop of `percentile` over the pairs of neighbours.
    pub search : F → F × T → Quantiles F T → Option T
    search percentile q [] = none
    search percentile q (r ∷ qs) =
        if in_segment percentile q.0 r.0
        then some (between percentile q r)
        else search percentile r qs

    -- `Estimates::percentile`
    unfoldable pub percentile : Estimates F T → F → Option T
    unfolding find_exact search last
    percentile e p = elim (find_exact p e.quantiles) [
      | some v ↦ some v
      | none ↦ elim e.quantiles [
        | [] ↦ none
        | q ∷ qs ↦
            if f.le p q.0
            then some q.1
            else if f.le (last q qs).0 p
            then some (last q qs).1
            else search p q qs
      ]
    ]

  abbrev pub line_between : F → F × F → F × F → F
  line_between p (p1, v1) (p2, v2) =
      f.add v1 (f.div (f.mul (f.sub v2 v1) (f.sub p p1)) (f.sub p2 p1))

  -- The loop of `interpolate_value`; it should never end without an answer.
  pub search_line : F → F × F → Quantiles F F → F
  search_line p q [] = zero_f
  search_line p q (r ∷ qs) = if in_segment p q.0 r.0 then line_between p q r else search_line p r qs

  pub interpolate_value : Quantiles F F → F → F
  unfolding search_line last
  interpolate_value [] p = zero_f
  interpolate_value (q ∷ qs) p =
      if f.le p q.0 then q.1 else if f.le (last q qs).0 p then (last q qs).1 else search_line p q qs

  pub contains : F → List F → Bool
  contains p [] = false
  contains p (q ∷ qs) = if f.eq q p then true else contains p qs

  -- A loop of `merge_quantiles`: the percentiles that are not there yet, at the end.
  pub push_new : List F → Quantiles F F → List F
  unfolding contains
  push_new ps [] = ps
  push_new ps ((p, v) ∷ qs) = push_new (if contains p ps then ps else ps ++ (p ∷ [])) qs

  -- `sort_by` with `partial_cmp`, where numbers that do not compare count as equal.
  pub insert_sorted : F → List F → List F
  insert_sorted p [] = p ∷ []
  insert_sorted p (q ∷ qs) = if f.lt q p then q ∷ insert_sorted p qs else p ∷ q ∷ qs

  pub sort : List F → List F
  unfolding insert_sorted
  sort [] = []
  sort (p ∷ ps) = insert_sorted p (sort ps)

  pub merged_percentiles : Quantiles F F → Quantiles F F → List F
  unfolding push_new sort
  merged_percentiles a b = sort (push_new (push_new [] a) b)

  pub merge_quantiles : Quantiles F F → Quantiles F F → Quantiles F F
  unfolding merged_percentiles interpolate_value
  merge_quantiles a b =
      map (λ p. (p, halved (f.add (interpolate_value a p) (interpolate_value b p))))
        (merged_percentiles a b)

  -- The percentile at an index.
  at : Quantiles F F → ℕ → Option F
  at qs i = elim (get_elem? qs i) [ none ↦ none | some (p, v) ↦ some p ]

  pub before_of : Quantiles F F → ℕ → Option F
  unfolding at
  before_of qs zero = at qs 0
  before_of qs (suc i) = elim (at qs (suc i)) [
    | none ↦ none
    | some p ↦ elim (at qs i) [ none ↦ none | some q ↦ some (halved (f.sub p q)) ]
  ]

  pub after_of : Quantiles F F → ℕ → Option F
  unfolding at
  after_of qs i = elim (at qs i) [
    | none ↦ none
    | some p ↦
        if i == length qs - 1
        then some (f.sub one_f p)
        else elim (at qs (i + 1)) [ none ↦ none | some q ↦ some (halved (f.sub q p)) ]
  ]

  pub width : Quantiles F F → ℕ → Option F
  unfolding before_of after_of
  width qs i = elim (before_of qs i) [
    | none ↦ none
    | some before ↦ elim (after_of qs i) [ none ↦ none | some after ↦ some (f.add before after) ]
  ]

  -- The loop of `distance` over the merged quantiles, from an index on.
  pub sum_deltas : (a b all : Quantiles F F) → ℕ → Quantiles F F → F → Option F
  unfolding width interpolate_value
  sum_deltas a b all i [] distance = some distance
  sum_deltas a b all i ((p, v) ∷ qs) distance =
      let delta = f.abs (f.sub (interpolate_value a p) (interpolate_value b p)) in
      elim (width all i) [
        | none ↦ none
        | some w ↦ sum_deltas a b all (i + 1) qs (f.add distance (f.mul w delta))
      ]

  pub distance : Quantiles F F → Quantiles F F → Option F
  unfolding merge_quantiles sum_deltas last
  distance [] b = some one_f
  distance (x ∷ a) [] = some one_f
  distance (x ∷ a) (y ∷ b) =
      let quantiles = merge_quantiles (x ∷ a) (y ∷ b) in
      let total_min = f.min x.1 y.1 in
      let total_max = f.max (last x a).1 (last y b).1 in
      if f.lt (f.abs (f.sub total_max total_min)) f.epsilon
      then some zero_f
      else elim (sum_deltas (x ∷ a) (y ∷ b) quantiles 0 quantiles zero_f) [
        | none ↦ none
        | some d ↦ some (f.div d (f.sub total_max total_min))
      ]

  pub similarity : {T : Type 0} → Value F T → Estimates F T → Estimates F T → Option F
  unfolding distance
  similarity t a b =
      let values = map (λ (p, v). (p, t.to_f64 v)) in
      elim (distance (values a.quantiles) (values b.quantiles)) [
        | none ↦ none
        | some d ↦ some (f.sub one_f d)
      ]

  -- What `Display` prints after the count: the percentiles, in percent, with their values.
  pub shown : {T : Type 0} → Quantiles F T → Option (List (F × T))
  shown [] = none
  shown (q ∷ []) = some []
  shown ((p, v) ∷ (r ∷ qs)) = elim (shown (r ∷ qs)) [
    | none ↦ none
    | some rest ↦ some ((f.mul p (f.decimal 100 0), v) ∷ rest)
  ]
