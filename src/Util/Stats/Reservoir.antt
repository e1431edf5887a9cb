-- ===== src/Util/Stats/Reservoir.antt =====
-- `ReservoirSampler` of src/util/stats.rs, and `Distribution::add_all`, which reads it.
-- A slot that was never written is `none`; reading one is a fault. The random index is an argument,
-- and the digest (the tdigest crate) is a parameter.
pub mod Filled
pub mod Order
pub mod Race
mod Tests
use schtest.Prelude.{
  ℕ, zero, suc, ◌+◌, ◌%◌, Bool, true, false, Option, none, some, List, [], ◌∷◌, map, ltb, ◌==◌,
  if◌then◌else◌, get_elem?, set, replicate, add64, min,
}

pub record Reservoir {ℓ} (T : Type ℓ) : Type ℓ where
  pub samples : List (Option T)
  pub count : ℕ

-- `capacity` is the `N` of the source.
module _ {ℓ} {T : Type ℓ} (capacity : ℕ) where
  unfoldable pub new : Reservoir T
  new = record { samples = replicate capacity none; count = 0 }

  -- The two atomic parts of `sample`: `fetch_add`, and the write to the slot of the old count, or
  -- to the random one if that is past the end.
  pub take_index : Reservoir T → Reservoir T
  take_index r = record r { count = add64 r.count 1 }

  pub write_sample : ℕ → ℕ → T → Reservoir T → Reservoir T
  write_sample index random_index item r = record r {
    samples = set r.samples (if ltb index capacity then index else random_index) (some item);
  }

  pub sample : ℕ → T → Reservoir T → Reservoir T
  unfolding take_index write_sample
  sample random_index item r =
      if capacity == 0 then r else write_sample r.count random_index item (take_index r)

  pub reset : Reservoir T → Reservoir T
  reset r = record r { count = 0 }

  -- The reads of `add_all`, of `limit` slots from the first on.
  pub read_slots : ℕ → List (Option T) → Option (List T)
  read_slots zero slots = some []
  read_slots (suc limit) [] = none
  read_slots (suc limit) (none ∷ slots) = none
  read_slots (suc limit) (some v ∷ slots) = elim (read_slots limit slots) [
    | none ↦ none
    | some vs ↦ some (v ∷ vs)
  ]

  pub read_all : Reservoir T → Option (List T)
  unfolding read_slots
  read_all r = read_slots (min r.count capacity) r.samples

  -- `Distribution::add_all` over a digest with its `merge_unsorted`; at N = 0 nothing is merged.
  module _ {κ} {D : Type κ} {F : Type κ} (merge_unsorted : D → List F → D) (to_f64 : T → F) where
    unfoldable pub add_all : D → Reservoir T → Option D
    unfolding read_all
    add_all digest r = if capacity == 0 then some digest else elim (read_all r) [
      | none ↦ none
      | some values ↦ some (merge_unsorted digest (map to_f64 values))
    ]
