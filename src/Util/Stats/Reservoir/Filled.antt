-- ===== src/Util/Stats/Reservoir/Filled.antt =====
-- One thread at a time: the slots of a reservoir that a reader reads.
use schtest.Prelude.{
  ℕ, zero, suc, ◌+◌, ◌^◌, ◌<◌, ◌≡◌, refl, Option, none, some, List, [], ◌∷◌, ◌++◌, ltb,
  if◌then◌else◌, get_elem?, length-set, length-append, length-replicate, get_elem?-set_self,
  get_elem?-set_ne, set, add64, min, length, arith, ◌∙◌, ap, ℕ_discrete, map, sym, take, ◌⊎◌, inl,
  inr,
}
use schtest.Util.Stats.Reservoir.{Reservoir, new, sample, reset, read_slots, read_all}

module _ {ℓ} {T : Type ℓ} (capacity : ℕ) where
  pub record IsFilled (r : Reservoir T) : Type ℓ where
    pub slots : length r.samples ≡ capacity
    pub written :
        (i : ℕ) → i < r.count → i < capacity → (v : T) × (get_elem? r.samples i ≡ some (some v))

  pub new-IsFilled : IsFilled (new capacity)
  unfolding new
  new-IsFilled = record { slots = length-replicate capacity none; written = λ i h k. elim h [ ] }

  -- Clearing the counter forgets the samples and leaves nothing to read.
  pub reset-IsFilled : (r : Reservoir T) → IsFilled r → IsFilled (reset capacity r)
  unfolding reset
  reset-IsFilled r f = record { slots = f.slots; written = λ i h k. elim h [ ] }

  -- The slot that `sample` writes.
  abbrev pub slot_of : Reservoir T → ℕ → ℕ
  slot_of r random_index = if ltb r.count capacity then r.count else random_index

  sample_lem :
      (random_index : ℕ) (item : T) (r : Reservoir T)
      → 0 < capacity
      → sample capacity random_index item r ≡ record {
        samples = set r.samples (slot_of r random_index) (some item);
        count = add64 r.count 1;
      }
  unfolding sample
  sample_lem random_index item r pos = ground arith

  -- A sample always ends up in a filled reservoir of a positive capacity, whatever index below that
  -- was drawn and however many samples came before.
  pub sample-kept :
      (random_index : ℕ) (item : T) (r : Reservoir T)
      → 0 < capacity
      → random_index < capacity
      → IsFilled r
      → (i : ℕ) × (i < capacity)
        × (get_elem? (sample capacity random_index item r).samples i ≡ some (some item))
  sample-kept random_index item r pos drawn f = (
    slot_of r random_index,
    inside,
    ap (λ (s : Reservoir T). get_elem? s.samples (slot_of r random_index))
          (sample_lem random_index item r pos)
        ∙ get_elem?-set_self r.samples (slot_of r random_index) (some item)
            (omega (arith, f.slots, inside)),
  )
    where
      inside : slot_of r random_index < capacity
      inside = ground arith

  slot_written :
      (random_index : ℕ) (item : T) (r : Reservoir T)
      → random_index < capacity
      → IsFilled r
      → (i : ℕ) → i < add64 r.count 1
      → i < capacity
      → (v : T) × (get_elem? (set r.samples (slot_of r random_index) (some item)) i ≡ some (some v))
  slot_written random_index item r drawn f i h k = elim (ℕ_discrete i (slot_of r random_index)) [
    | yes here ↦
        (item, rw (← here) (get_elem?-set_self r.samples i (some item) (omega (arith, f.slots))))
    | no there ↦
        let (v, e) = f.written i (ground arith) k in
        (
          v,
          get_elem?-set_ne r.samples (slot_of r random_index) i (some item) (λ e. there (sym e))
              ∙ e,
        )
  ]

  -- `sample` keeps every slot that a reader may read written, if the capacity is positive and the
  -- drawn index below it.
  pub sample-IsFilled :
      (random_index : ℕ) (item : T) (r : Reservoir T)
      → 0 < capacity
      → random_index < capacity
      → IsFilled r
      → IsFilled (sample capacity random_index item r)
  sample-IsFilled random_index item r pos drawn f =
      rw (sample_lem random_index item r pos) (record {
        slots = length-set r.samples (slot_of r random_index) (some item) ∙ f.slots;
        written = slot_written random_index item r drawn f;
      })

  read_slots_total :
      (limit : ℕ) (slots : List (Option T))
      → ((i : ℕ) → i < limit → (v : T) × (get_elem? slots i ≡ some (some v)))
      → (vs : List T) × (read_slots capacity limit slots ≡ some vs)
        × (length vs ≡ limit)
        × (map some vs ≡ take limit slots)
  unfolding read_slots
  read_slots_total zero slots w = ([], refl, refl, refl)
  read_slots_total (suc limit) [] w = absurd (ground (arith, (w 0 (omega arith)).1))
  read_slots_total (suc limit) (none ∷ slots) w = absurd (ground (arith, (w 0 (omega arith)).1))
  read_slots_total (suc limit) (some v ∷ slots) w =
      let (vs, e, n, same) = read_slots_total limit slots (λ i h. w (suc i) (omega arith)) in
      (v ∷ vs, rw e, ap suc n, ap (λ t. some v ∷ t) same)

  -- Reading a filled reservoir never meets an unwritten slot: it gives the values of the first
  -- slots, in order, as many as samples were taken since the reset and at most the capacity.
  pub read_all_total :
      (r : Reservoir T)
      → IsFilled r
      → (vs : List T) × (read_all capacity r ≡ some vs)
        × (length vs ≡ min r.count capacity)
        × (map some vs ≡ take (min r.count capacity) r.samples)
  unfolding read_all
  read_all_total r f =
      read_slots_total (min r.count capacity) r.samples
        (λ i h. f.written i (omega arith) (omega arith))

  -- The items of a list are the first samples since the last reset.
  pub record IsPrefix (r : Reservoir T) (xs : List T) : Type ℓ where
    pub slots : length r.samples ≡ capacity
    pub count : r.count ≡ length xs
    pub items : (i : ℕ) (v : T) → get_elem? xs i ≡ some v → get_elem? r.samples i ≡ some (some v)

  get_elem?_lt : (xs : List T) (i : ℕ) {v : T} → get_elem? xs i ≡ some v → i < length xs
  get_elem?_lt [] i e = absurd (cc)
  get_elem?_lt (x ∷ xs) zero e = omega arith
  get_elem?_lt (x ∷ xs) (suc i) e = omega (arith, get_elem?_lt xs i e)

  get_elem?_snoc :
      (xs : List T) (x : T) (i : ℕ) {v : T}
      → get_elem? (xs ++ (x ∷ [])) i ≡ some v
      → (get_elem? xs i ≡ some v) ⊎ ((i ≡ length xs) × (v ≡ x))
  get_elem?_snoc [] x zero e = inr (refl, ground arith)
  get_elem?_snoc [] x (suc i) e = absurd (cc)
  get_elem?_snoc (y ∷ xs) x zero e = inl e
  get_elem?_snoc (y ∷ xs) x (suc i) e = elim (get_elem?_snoc xs x i e) [
    | inl old ↦ inl old
    | inr (at, same) ↦ inr (ap suc at, same)
  ]

  -- While there is room, `sample` puts the item behind those before it.
  pub sample-IsPrefix :
      (random_index : ℕ) (item : T) (r : Reservoir T) (xs : List T)
      → length xs < capacity
      → length xs + 1 < 2 ^ 64
      → IsPrefix r xs
      → IsPrefix (sample capacity random_index item r) (xs ++ (item ∷ []))
  sample-IsPrefix random_index item r xs room word p =
      rw (sample_lem random_index item r (omega arith)) (record {
        slots = length-set r.samples (slot_of r random_index) (some item) ∙ p.slots;
        count = omega (arith, p.count, length-append xs (item ∷ []));
        items = λ i v e. items i v (get_elem?_snoc xs item i e);
      })
    where
      slot : slot_of r random_index ≡ length xs
      slot = ground (arith, p.count)

      items :
          (i : ℕ) (v : T)
          → (get_elem? xs i ≡ some v) ⊎ ((i ≡ length xs) × (v ≡ item))
          → get_elem? (set r.samples (slot_of r random_index) (some item)) i ≡ some (some v)
      items i v (inl old) =
          get_elem?-set_ne r.samples (slot_of r random_index) i (some item)
            (λ e. absurd (omega (arith, get_elem?_lt xs i old, slot)))
          ∙ p.items i v old
      items i v (inr (at, same)) =
          rw (same, slot, at)
            (get_elem?-set_self r.samples (length xs) (some item) (omega (arith, p.slots)))
