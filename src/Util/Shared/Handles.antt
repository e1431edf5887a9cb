-- ===== src/Util/Shared/Handles.antt =====
-- The handles of src/util/shared.rs: what dropping boxes, vectors and their clones drops, and indexing. An element is its vector's pointer with an index.
pub mod Dropped
use schtest.Prelude.{
  ℕ, zero, suc, ◌+◌, Bool, true, false, ◌&&◌, Option, none, some, List, [], ◌∷◌, ◌++◌, ◌==◌,
  if◌then◌else◌, ltb, leb,
}
use schtest.Util.Shared.{SharedBox, SharedVec, clone, get}

-- `Drop for SharedBox` asserts that values of its type need no drop; false is its panic.
pub box_drop : (needs_drop : Bool) → SharedBox → Bool
box_drop true b = false
box_drop false b = true

abbrev pub Element : Type 0
Element = ℕ × ℕ

-- The loop of `Drop for SharedVec`, over the last `n` elements.
pub drop_from : ℕ → (n i : ℕ) → List Element
drop_from ptr zero i = []
drop_from ptr (suc n) i = (ptr, i) ∷ drop_from ptr n (i + 1)

-- The elements that are dropped in place.
pub vec_drop : SharedVec → List Element
unfolding drop_from
vec_drop v = drop_from v.ptr v.len 0

-- The handles that a vector and a number of clones of it are, dropped one after the other.
pub drop_clones : ℕ → SharedVec → List Element
unfolding vec_drop clone
drop_clones zero v = vec_drop v
drop_clones (suc n) v = vec_drop (clone v) ++ drop_clones n v

-- `Index`, where the outer `none` is a panic: the address of the element.
pub index : (size_of : ℕ) → SharedVec → ℕ → Option ℕ
unfolding get
index size_of v i = get size_of v i
