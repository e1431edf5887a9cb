-- ===== src/Util/Stats/Visualize/Layout.antt =====
-- How the line of `visualize` of src/util/stats.rs is laid out, and how long it is.
use schtest.Prelude.{
  ℕ, zero, suc, ◌+◌, ◌≤◌, ◌<◌, ◌≡◌, refl, ap, ◌∙◌, sym, Option, none, some, List, [], ◌∷◌, ◌++◌,
  length, take, drop, All, get_elem?, get_elem?-some, length-append, arith, max, inl, inr,
  Option-cases,
}
use mathlib.Core.Option.{some-injective, none-ne-some}
use schtest.Prelude.Text.{codes}
use schtest.Util.Stats.Estimates.{Floats, Value, Quantiles, Estimates, last}
use schtest.Util.Stats.Visualize.{
  Screen, Point, bars, byte_length, range, or_else, bar_space, bar_width, middle, compose, label,
  points, sort_points, seek, height, value_at, bar_vec, p50_pos, min_label, max_label, width_of,
  draw, visualize, find_near,
}

module _ {A : Type 0} where
  length-take-drop : (n : ℕ) (xs : List A) → length (take n xs) + length (drop n xs) ≡ length xs
  length-take-drop zero xs = omega arith
  length-take-drop (suc n) [] = refl
  length-take-drop (suc n) (x ∷ xs) = omega (arith, length-take-drop n xs)

  take-All : (P : A → Type 0) (n : ℕ) (xs : List A) → All P xs → All P (take n xs)
  take-All P zero xs h = tt
  take-All P (suc n) [] h = tt
  take-All P (suc n) (x ∷ xs) h = (h.0, take-All P n xs h.1)

  drop-All : (P : A → Type 0) (n : ℕ) (xs : List A) → All P xs → All P (drop n xs)
  drop-All P zero xs h = h
  drop-All P (suc n) [] h = tt
  drop-All P (suc n) (x ∷ xs) h = drop-All P n xs h.1

pub length-range : (i n : ℕ) → length (range i n) ≡ n
unfolding range
length-range i zero = refl
length-range i (suc n) = ap suc (length-range (i + 1) n)

-- One of the eight bars.
abbrev pub IsBar : ℕ → Type 0
IsBar c = (i : ℕ) × (get_elem? bars i ≡ some c)

abbrev pub IsAscii : List ℕ → Type 0
IsAscii s = All (λ c. c < 128) s

pub byte_length-length : (s : List ℕ) → IsAscii s → byte_length s ≡ length s
unfolding byte_length
byte_length-length [] h = refl
byte_length-length (c ∷ s) h = ground (arith, byte_length-length s h.1)

-- A line: the labels, and bars to the left and to the right of the middle.
abbrev pub IsLine : List ℕ → Option (List ℕ) → List ℕ → ℕ → List ℕ → Type 0
IsLine low mid high width line =
    (left : List ℕ) × (right : List ℕ) × (line
      ≡ low ++ (codes " |" ++ (left ++ (middle mid ++ (right ++ (codes "| " ++ high))))))
    × (length left + length right ≡ width)
    × All IsBar left
    × All IsBar right

-- The labels of a line, with what stands between them and the bars.
abbrev pub frame : List ℕ → Option (List ℕ) → List ℕ → ℕ
frame low none high = length low + length high + 4
frame low (some m) high = length low + length high + 4 + (length m + 2)

length-IsLine :
    (low : List ℕ) (mid : Option (List ℕ)) (high : List ℕ) (width : ℕ) (line : List ℕ)
    → IsLine low mid high width line
    → length line ≡ frame low mid high + width
length-IsLine low none high width line (left, right, e, w, _, _) =
    ap length e
    ∙ omega (
      arith,
      w,
      length-append low (codes " |" ++ (left ++ (right ++ (codes "| " ++ high)))),
      length-append left (right ++ (codes "| " ++ high)),
      length-append right (codes "| " ++ high),
    )
length-IsLine low (some m) high width line (left, right, e, w, _, _) =
    ap length e
    ∙ omega (
      arith,
      w,
      length-append low
          (codes " |" ++ (left ++ (middle (some m) ++ (right ++ (codes "| " ++ high))))),
      length-append left (middle (some m) ++ (right ++ (codes "| " ++ high))),
      length-append (middle (some m)) (right ++ (codes "| " ++ high)),
      length-append m (codes " "),
      length-append right (codes "| " ++ high),
    )

-- Every character of the middle is one byte.
abbrev pub MiddleIsAscii : Option (List ℕ) → Type 0
MiddleIsAscii none = Unit
MiddleIsAscii (some s) = IsAscii s

frame-bar_width :
    (space : ℕ) (low : List ℕ) (mid : Option (List ℕ)) (high : List ℕ)
    → IsAscii low
    → MiddleIsAscii mid
    → IsAscii high
    → frame low mid high + bar_width space low mid high ≡ max space (frame low mid high + 8)
unfolding bar_width byte_length
frame-bar_width space low none high l m h =
    omega (arith, byte_length-length low l, byte_length-length high h)
frame-bar_width space low (some s) high l m h =
    omega (arith, byte_length-length low l, byte_length-length high h, byte_length-length s m)

-- The width that was asked for, else the columns of the terminal, else 64.
abbrev pub asked_width : (width columns : Option ℕ) → ℕ
asked_width (some w) columns = w
asked_width none (some c) = c
asked_width none none = 64

bar_space-asked_width :
    (width columns : Option ℕ) → bar_space width columns ≡ max (asked_width width columns) 16
unfolding bar_space or_else
bar_space-asked_width (some w) columns = refl
bar_space-asked_width none (some c) = refl
bar_space-asked_width none none = refl

module _ {F T : Type 0} (f : Floats F) (t : Value F T) (screen : Screen F T) where
  height-bars :
      (n : ℕ) (value : F) (s : ℕ × Point F × Option (Point F))
      → (c : ℕ) × (get_elem? bars (height f t screen n value s) ≡ some c)
  unfolding height
  height-bars n value (seg, q, next) = get_elem?-some bars _ (omega arith)

  pub bar_vec-All :
      (q : Point F) (ps : List (Point F)) (width : ℕ) (xs : List ℕ)
      → (s : List ℕ) × (bar_vec f t screen q ps width xs ≡ some s)
        × (length s ≡ length xs)
        × All IsBar s
  unfolding bar_vec
  bar_vec-All q ps width [] = ([], refl, refl, tt)
  bar_vec-All q ps width (x ∷ xs) =
      let (rest, e, l, h) = bar_vec-All q ps width xs in
      let value = value_at f t screen q.value (last q ps).value width x in
      let (c, found) = height-bars (length (q ∷ ps)) value (seek f t screen value 0 q ps) in
      (c ∷ rest, rw (bar_vec, found, e) refl, ap suc l, ((_, found), h))

  draw-IsLine :
      (width : Option ℕ) (qs : Quantiles F T) (ps : List (Point F)) (line : List ℕ)
      → draw f t screen width qs ps ≡ some line
      → IsLine
          (min_label f t screen qs)
          (label f t screen 5 1 qs)
          (max_label f t screen qs)
          (width_of f t screen width qs)
          line
  unfolding draw compose
  draw-IsLine width qs [] line e = absurd (none-ne-some _ e)
  draw-IsLine width qs (q ∷ ps) line e =
      let w = width_of f t screen width qs in
      let (bs, b, l, h) = bar_vec-All q ps w (range 0 w) in
      elim (Option-cases (p50_pos f t screen q ps w (find_near f t screen 5 1 qs))) [
        | inl none_found ↦ let g = rw (draw, b, none_found) at e in absurd (none-ne-some _ g)
        | inr (pos, found) ↦
            let g = rw (draw, b, found) at e in
            (
              take pos bs,
              drop pos bs,
              sym (some-injective _ _ g),
              length-take-drop pos bs ∙ l ∙ length-range 0 w,
              take-All IsBar pos bs h,
              drop-All IsBar pos bs h,
            )
      ]

  -- A line that `visualize` draws is the label of the least value, a space and a bar, the bars to
  -- the left of the median, the median between spaces if it is there, the bars to the right of it,
  -- a bar and a space, and the label of the greatest value. The bars are at least 8, as many as
  -- `bar_width` says, and each is one of the eight block characters.
  pub visualize-IsLine :
      (e : Estimates F T) (width : Option ℕ) (line : List ℕ)
      → visualize f t screen e width ≡ some line
      → IsLine
          (min_label f t screen e.quantiles)
          (label f t screen 5 1 e.quantiles)
          (max_label f t screen e.quantiles)
          (width_of f t screen width e.quantiles)
          line
        × (8 ≤ width_of f t screen width e.quantiles)
  unfolding visualize width_of bar_width
  visualize-IsLine e width line h =
      elim (Option-cases (sort_points f t screen (points f t screen e.quantiles))) [
        | inl unsorted ↦ let g = rw (visualize, unsorted) at h in absurd (none-ne-some _ g)
        | inr (ps, sorted) ↦
            let g = rw (visualize, sorted) at h in
            (draw-IsLine width e.quantiles ps line g, omega arith)
      ]

  -- If the labels are of one byte for each character, a line that `visualize` draws has as many
  -- characters as the width asked for, or the terminal, or 64, but at least 16, and at least as many
  -- as the labels with their spaces and 8 bars.
  pub length-visualize :
      (e : Estimates F T) (width : Option ℕ) (line : List ℕ)
      → IsAscii (min_label f t screen e.quantiles)
      → MiddleIsAscii (label f t screen 5 1 e.quantiles)
      → IsAscii (max_label f t screen e.quantiles)
      → visualize f t screen e width ≡ some line
      → length line
        ≡ max (max (asked_width width screen.columns) 16) (
            frame
              (min_label f t screen e.quantiles)
              (label f t screen 5 1 e.quantiles)
              (max_label f t screen e.quantiles)
            + 8)
  unfolding width_of
  length-visualize e width line l m h drawn =
      length-IsLine _ _ _ _ line (visualize-IsLine e width line drawn).0
      ∙ frame-bar_width (bar_space width screen.columns) _ _ _ l m h
      ∙ rw (bar_space-asked_width width screen.columns) refl
