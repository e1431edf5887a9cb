-- ===== src/Util/Shared/Handles/Dropped.antt =====
-- How often dropping the handles of a vector in src/util/shared.rs drops its elements.
use schtest.Prelude.{
  ℕ, zero, suc, ◌+◌, ◌≤◌, ◌<◌, ◌≡◌, refl, ◌&&◌, List, [], ◌∷◌, ◌++◌, ◌==◌, if◌then◌else◌, arith,
}
use schtest.Util.Shared.{SharedVec, clone}
use schtest.Util.Shared.Handles.{Element, drop_from, vec_drop, drop_clones}

-- How often an element stands in a list.
abbrev pub count : ℕ → ℕ → List Element → ℕ
count p i [] = 0
count p i ((q, j) ∷ es) = (if p == q && i == j then 1 else 0) + count p i es

count-append : (p i : ℕ) (xs ys : List Element) → count p i (xs ++ ys) ≡ count p i xs + count p i ys
count-append p i [] ys = omega arith
count-append p i ((q, j) ∷ xs) ys = omega (arith, count-append p i xs ys)

count-below : (p n i j : ℕ) → j < i → count p j (drop_from p n i) ≡ 0
unfolding drop_from
count-below p zero i j h = refl
count-below p (suc n) i j h = ground (arith, count-below p n (i + 1) j)

count-drop_from : (p n i j : ℕ) → i ≤ j → j < i + n → count p j (drop_from p n i) ≡ 1
unfolding drop_from
count-drop_from p zero i j h k = absurd (omega arith)
count-drop_from p (suc n) i j h k =
    ground (arith, count-below p n (i + 1) j, count-drop_from p n (i + 1) j)

-- Each element of a vector is dropped in place once for every handle: when a vector and `n` clones of
-- it are dropped, `n + 1` times.
pub count-drop_clones :
    (n : ℕ) (v : SharedVec) (i : ℕ) → i < v.len → count v.ptr i (drop_clones n v) ≡ n + 1
unfolding drop_clones vec_drop clone
count-drop_clones zero v i h = count-drop_from v.ptr v.len 0 i (omega arith) (omega arith)
count-drop_clones (suc n) v i h = omega (
  arith,
  count-append v.ptr i (drop_from v.ptr v.len 0) (drop_clones n v),
  count-drop_from v.ptr v.len 0 i (omega arith) (omega arith),
  count-drop_clones n v i h,
)
