-- ===== src/Util/Stats/Visualize.antt =====
-- `Estimates::visualize` of src/util/stats.rs: the density of a distribution as one line of text.
-- Besides the operations of f64, its conversions from and to usize and `clamp`, the text of a value
-- by `Debug` and the width of the terminal are parameters. `none` is a panic.
pub mod Layout
pub mod Sorted
pub mod Drawn
pub mod Whole
pub mod Numbers
mod Tests
use schtest.Prelude.{
  ℕ, zero, suc, ◌+◌, ◌-◌, ◌/◌, Bool, true, false, ◌||◌, Option, none, some, List, [], ◌∷◌, ◌++◌,
  map, if◌then◌else◌, get_elem?, length, take, drop, ltb, leb, min, max, unwrap_or,
}
use schtest.Prelude.Text.{codes}
use schtest.Util.Stats.Estimates.{Floats, Value, Quantiles, Estimates, last}

-- The conversions and the terminal that `visualize` needs: `round_as_usize` is `round() as usize`,
-- `debug` the text of a value, `columns` the answer of `term_size::dimensions`.
pub record Screen (F T : Type 0) : Type 0 where
  pub of_usize : ℕ → F
  pub round_as_usize : F → ℕ
  pub clamp : F → F → F → F
  pub debug : T → List ℕ
  pub columns : Option ℕ

-- An element of `quantile_points`.
pub record Point (F : Type 0) : Type 0 where
  pub percentile : F
  pub value : F
  pub idx : ℕ

abbrev pub bars : List ℕ
bars = codes "▁▂▃▄▅▆▇█"

-- `str::byte_length`: the bytes of a text in UTF-8
unfoldable pub byte_length : List ℕ → ℕ
byte_length [] = 0
byte_length (c ∷ s) =
    (if ltb c 128 then 1 else if ltb c 2048 then 2 else if ltb c 65536 then 3 else 4)
    + byte_length s

-- The numbers from one on, `n` of them.
pub range : ℕ → ℕ → List ℕ
range i zero = []
range i (suc n) = i ∷ range (i + 1) n

pub or_else : {A : Type 0} → Option A → Option A → Option A
or_else none o = o
or_else (some a) o = some a

-- The rising and falling heights of the points.
pub bar_index : ℕ → ℕ → ℕ
bar_index n i = if leb i (n / 2) then i else n - 1 - i

pub bar_space : Option ℕ → Option ℕ → ℕ
unfolding or_else
bar_space width columns = max (unwrap_or (or_else width columns) 64) 16

-- The text around the median, with its spaces.
abbrev pub p50_len : Option (List ℕ) → ℕ
unfolding byte_length
p50_len none = 0
p50_len (some s) = byte_length s + 2

pub bar_width : ℕ → List ℕ → Option (List ℕ) → List ℕ → ℕ
bar_width space min_label p50_label max_label =
    max
      (space - (byte_length min_label + 1) - (p50_len p50_label + 2) - (byte_length max_label + 1))
      8

abbrev pub middle : Option (List ℕ) → List ℕ
middle none = []
middle (some s) = codes " " ++ (s ++ codes " ")

pub compose : List ℕ → Option (List ℕ) → List ℕ → ℕ → List ℕ → List ℕ
compose min_label p50_label max_label p50_pos bar_vec =
    min_label
    ++ (codes " |"
        ++ (take p50_pos bar_vec
            ++ (middle p50_label ++ (drop p50_pos bar_vec ++ (codes "| " ++ max_label)))))

module _ {F T : Type 0} (f : Floats F) (t : Value F T) (screen : Screen F T) where
  -- The percentile `m / 10 ^ k`, within 1e-6.
  pub is_near : ℕ → ℕ → F → Bool
  is_near m k p = f.lt (f.abs (f.sub p (f.decimal m k))) (f.decimal 1 6)

  pub find_near : ℕ → ℕ → Quantiles F T → Option T
  unfolding is_near
  find_near m k [] = none
  find_near m k ((p, v) ∷ qs) = if is_near m k p then some v else find_near m k qs

  pub label : ℕ → ℕ → Quantiles F T → Option (List ℕ)
  unfolding find_near
  label m k qs = elim (find_near m k qs) [ none ↦ none | some v ↦ some (screen.debug v) ]

  pub index_of : F → Option ℕ
  unfolding is_near
  index_of p =
      if is_near 1 3 p
      then some 0
      else if is_near 1 2 p
      then some 1
      else if is_near 1 1 p
      then some 2
      else if is_near 5 1 p
      then some 3
      else if is_near 9 1 p
      then some 2
      else if is_near 99 2 p
      then some 1
      else if is_near 999 3 p
      then some 0
      else none

  -- The loop that collects `quantile_points`.
  pub points : Quantiles F T → List (Point F)
  unfolding index_of
  points [] = []
  points ((p, v) ∷ qs) = elim (index_of p) [
    | none ↦ points qs
    | some i ↦ record { percentile = p; value = t.to_f64 v; idx = i } ∷ points qs
  ]

  -- Whether `partial_cmp` has an answer.
  pub comparable : F → F → Bool
  comparable a b = f.lt a b || f.eq a b || f.lt b a

  pub insert_point : Point F → List (Point F) → Option (List (Point F))
  unfolding comparable
  insert_point p [] = some (p ∷ [])
  insert_point p (q ∷ qs) =
      let rest = insert_point p qs in
      if comparable q.value p.value
      then (if f.lt q.value p.value
          then elim rest [ none ↦ none | some r ↦ some (q ∷ r) ]
          else some (p ∷ q ∷ qs))
      else none

  -- `sort_by` with `partial_cmp(..).unwrap()`, a stable sort.
  pub sort_points : List (Point F) → Option (List (Point F))
  unfolding insert_point
  sort_points [] = some []
  sort_points (p ∷ ps) = elim (sort_points ps) [ none ↦ none | some qs ↦ insert_point p qs ]

  pub range_of : F → F → F
  range_of low high =
      if f.lt (f.abs (f.sub high low)) f.epsilon then f.decimal 1 0 else f.sub high low

  -- The value at the bar `x` of `width`.
  pub value_at : F → F → ℕ → ℕ → F
  unfolding range_of
  value_at low high width x =
      let rel = f.div (screen.of_usize x) (screen.of_usize (width - 1)) in
      f.add low (f.mul rel (range_of low high))

  -- The loop over `seg`: the segment of a value, with the points at its ends.
  pub seek : F → ℕ → Point F → List (Point F) → ℕ × Point F × Option (Point F)
  seek value seg q [] = (seg, q, none)
  seek value seg q (r ∷ qs) =
      let next = seek value (seg + 1) r qs in if f.lt r.value value then next else (seg, q, some r)

  -- The point at the end of a segment, or the last one.
  pub segment_end : ℕ → ℕ → Point F → Option (Point F) → F × ℕ
  unfolding bar_index
  segment_end n seg q none = (q.value, bar_index n seg)
  segment_end n seg q (some r) = (r.value, bar_index n (seg + 1))

  pub height : ℕ → F → ℕ × Point F × Option (Point F) → ℕ
  unfolding bar_index segment_end
  height n value (seg, q, next) =
      let (v2, b2) = segment_end n seg q next in
      let part =
        if f.lt (f.abs (f.sub v2 q.value)) f.epsilon
        then f.decimal 0 0
        else screen.clamp (f.div (f.sub value q.value) (f.sub v2 q.value)) (f.decimal 0 0)
            (f.decimal 1 0) in
      let b1 = screen.of_usize (bar_index n seg) in
      let bar_f = f.add b1 (f.mul (f.sub (screen.of_usize b2) b1) part) in
      let scaled = f.div bar_f (screen.of_usize (max (n / 2) 1)) in
      let max_bar = length bars - 1 in
      min (screen.round_as_usize (f.mul scaled (screen.of_usize max_bar))) max_bar

  -- The loop over the positions.
  pub bar_vec : Point F → List (Point F) → ℕ → List ℕ → Option (List ℕ)
  unfolding value_at seek height last
  bar_vec q ps width [] = some []
  bar_vec q ps width (x ∷ xs) =
      let value = value_at q.value (last q ps).value width x in
      elim (get_elem? bars (height (length (q ∷ ps)) value (seek value 0 q ps))) [
        | none ↦ none
        | some bar ↦ elim (bar_vec q ps width xs) [ none ↦ none | some rest ↦ some (bar ∷ rest) ]
      ]

  pub distances : Point F → List (Point F) → ℕ → F → List (ℕ × F)
  unfolding value_at last range
  distances q ps width p50 =
      map (λ i. (i, f.abs (f.sub (value_at q.value (last q ps).value width i) p50))) (range 0 width)

  -- `min_by` with `partial_cmp(..).unwrap()`, which keeps the first of the least elements.
  pub min_by : ℕ × F → List (ℕ × F) → Option ℕ
  unfolding comparable
  min_by (i, d) [] = some i
  min_by (i, d) ((j, e) ∷ rest) =
      let closer = min_by (if f.lt e d then (j, e) else (i, d)) rest in
      if comparable d e then closer else none

  pub p50_pos : Point F → List (Point F) → ℕ → Option T → Option ℕ
  unfolding distances min_by
  p50_pos q ps width none = some (width / 2)
  p50_pos q ps width (some v) = elim (distances q ps width (t.to_f64 v)) [
    | [] ↦ some (width / 2)
    | d ∷ ds ↦ min_by d ds
  ]

  pub min_label : Quantiles F T → List ℕ
  unfolding label
  min_label qs = unwrap_or (label 1 3 qs) (codes "min")

  pub max_label : Quantiles F T → List ℕ
  unfolding label
  max_label qs = unwrap_or (label 999 3 qs) (codes "max")

  pub width_of : Option ℕ → Quantiles F T → ℕ
  unfolding min_label max_label label bar_space bar_width
  width_of width qs =
      bar_width (bar_space width screen.columns) (min_label qs) (label 5 1 qs) (max_label qs)

  -- What is drawn once the points are sorted; an index into no points panics.
  pub draw : Option ℕ → Quantiles F T → List (Point F) → Option (List ℕ)
  unfolding width_of range bar_vec p50_pos compose find_near
  draw width qs [] = none
  draw width qs (q ∷ ps) = elim (bar_vec q ps (width_of width qs) (range 0 (width_of width qs))) [
    | none ↦ none
    | some bar_vec ↦ elim (p50_pos q ps (width_of width qs) (find_near 5 1 qs)) [
      | none ↦ none
      | some pos ↦ some (compose (min_label qs) (label 5 1 qs) (max_label qs) pos bar_vec)
    ]
  ]

  unfoldable pub visualize : Estimates F T → Option ℕ → Option (List ℕ)
  unfolding points sort_points draw
  visualize e width = elim (sort_points (points e.quantiles)) [
    | none ↦ none
    | some ps ↦ draw width e.quantiles ps
  ]
