-- ===== src/Util/Stats/Distribution.antt =====
-- `Distribution` of src/util/stats.rs over its digest (the tdigest crate), which is a parameter.
use schtest.Prelude.{ℕ, List, [], ◌∷◌}
use schtest.Util.Stats.Estimates.{Floats, Value, Estimates, estimates}

-- What `Distribution` calls of a digest over its states.
pub record Digest (F D : Type 0) : Type 0 where
  pub new_with_size : ℕ → D
  pub merge_unsorted : D → List F → D
  pub estimate_quantile : D → F → F
  pub count : D → ℕ

module _ {F D T : Type 0} (f : Floats F) (digest : Digest F D) (t : Value F T) where
  unfoldable pub new : D
  new = digest.new_with_size 100

  unfoldable pub add : T → D → D
  add value d = digest.merge_unsorted d (t.to_f64 value ∷ [])

  -- `Distribution::estimates`
  unfoldable pub estimates_of : D → Estimates F T
  estimates_of d = estimates f t (digest.estimate_quantile d) (digest.count d)
