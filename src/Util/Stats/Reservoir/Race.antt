-- ===== src/Util/Stats/Reservoir/Race.antt =====
-- Two threads: a reader between the two atomic parts of `sample` of src/util/stats.rs.
use schtest.Prelude.{
  ℕ, zero, suc, ◌+◌, ◌^◌, ◌<◌, ◌≡◌, refl, Option, none, some, List, [], ◌∷◌, get_elem?, arith,
}
use schtest.Util.Stats.Reservoir.{Reservoir, take_index, read_slots, read_all}

module _ {ℓ} {T : Type ℓ} (capacity : ℕ) where
  read_slots_hole :
      (n i : ℕ) (slots : List (Option T))
      → i < n
      → get_elem? slots i ≡ some none
      → read_slots capacity n slots ≡ none
  unfolding read_slots
  read_slots_hole zero i slots lt e = elim lt [ ]
  read_slots_hole (suc n) i [] lt e = refl
  read_slots_hole (suc n) i (none ∷ slots) lt e = refl
  read_slots_hole (suc n) zero (some v ∷ slots) lt e = absurd (cc)
  read_slots_hole (suc n) (suc i) (some v ∷ slots) lt e =
      rw (read_slots_hole n i slots (omega arith) e)

  -- While the slot of the count has never been written, a reader that comes between the
  -- `fetch_add` and the write of a `sample` reads it: the read is of uninitialised memory.
  pub read_between :
      (r : Reservoir T)
      → r.count < capacity
      → r.count + 1 < 2 ^ 64
      → get_elem? r.samples r.count ≡ some none
      → read_all capacity (take_index capacity r) ≡ none
  unfolding read_all take_index
  read_between r room word fresh = read_slots_hole _ r.count r.samples (omega arith) fresh
