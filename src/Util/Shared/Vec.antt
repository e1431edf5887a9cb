-- ===== src/Util/Shared/Vec.antt =====
-- `SharedVec` of src/util/shared.rs, against the list that it holds.
use schtest.Prelude.{
  ℕ, ◌+◌, ◌*◌, ◌≤◌, ◌<◌, ◌≡◌, ◌≢◌, ◌⊎◌, inl, inr, refl, false, Option, none, some, List, [], ◌∷◌,
  ◌++◌, arith, leb, ◌==◌, get_elem?, length, length-append, get_elem?-append_left,
  get_elem?-append_end, Bool-cases, ==_iff, dec_lt, le→leb, get_elem?-none, ◌∙◌, sym,
}
use schtest.Util.Shared.{
  SharedVec, Result, ok, err, capacity_exceeded, write, push, get, elem_ptr, with_capacity, Layout,
  BumpAllocator, SharedError, out_of_memory, bad_layout, array_layout, alloc, pointer,
}

elem_ne : (size_of p i n : ℕ) → 0 < size_of → i < n → p + n * size_of ≢ p + i * size_of
elem_ne size_of p i n pos lt e = grind arith

write_ne {ℓ} : {T : Type ℓ} (mem : ℕ → Option T) (p q : ℕ) (x : T) → p ≢ q → write mem p x q ≡ mem q
write_ne mem p q x ne = ground arith

write_self {ℓ} : {T : Type ℓ} (mem : ℕ → Option T) (p : ℕ) (x : T) → write mem p x p ≡ some x
write_self mem p x = ground arith

module _ {ℓ} {T : Type ℓ} (size_of : ℕ) where
  -- The vector and the memory hold the list.
  pub record Holds (v : SharedVec) (mem : ℕ → Option T) (xs : List T) : Type ℓ where
    pub count : v.len ≡ length xs
    pub room : v.len ≤ v.capacity
    pub cells : (i : ℕ) → i < v.len → mem (v.ptr + i * size_of) ≡ get_elem? xs i

  appended :
      (v : SharedVec) (mem : ℕ → Option T) (xs : List T) (x : T) (i : ℕ)
      → 0 < size_of
      → Holds v mem xs
      → i < v.len + 1
      → write mem (v.ptr + v.len * size_of) x (v.ptr + i * size_of) ≡ get_elem? (xs ++ (x ∷ [])) i
  appended v mem xs x i pos h lt = elim (dec_lt i v.len) [
    | yes old ↦
        write_ne mem _ _ x (elem_ne size_of v.ptr i v.len pos old)
        ∙ h.cells i old
        ∙ sym (get_elem?-append_left xs (x ∷ []) i (omega (arith, h.count)))
    | no new ↦ rw (last new) (
        rw h.count
          (write_self mem (v.ptr + length xs * size_of) x ∙ sym (get_elem?-append_end xs [] x)))
  ]
    where
      last : ¬ (i < v.len) → i ≡ v.len
      last new = omega arith

  -- `push` on a vector with room appends, and reports success; on a full one it reports the error
  -- and changes nothing. Elements have a positive size.
  pub push-Holds :
      (v : SharedVec) (mem : ℕ → Option T) (xs : List T) (x : T)
      → 0 < size_of
      → Holds v mem xs
      → let (v', mem', r) = push size_of v mem x in
        ((v.len < v.capacity) × (r ≡ ok tt) × Holds v' mem' (xs ++ (x ∷ [])))
        ⊎ ((v.len ≡ v.capacity) × (r ≡ err capacity_exceeded) × (v' ≡ v) × (mem' ≡ mem))
  unfolding push
  push-Holds v mem xs x pos h = elim (Bool-cases (v.len == v.capacity)) [
    | inl full ↦ rw full (inr ((==_iff _ _).0 full, refl, refl, refl))
    | inr room ↦ rw room (
        inl (
          fits room,
          refl,
          record {
            count = omega (arith, length-append xs (x ∷ []), h.count);
            room = grew room;
            cells = λ i lt. appended v mem xs x i pos h lt;
          },
        ))
  ]
    where
      fits : (v.len == v.capacity) ≡ false → v.len < v.capacity
      fits e = ground (arith, h.room)

      grew : (v.len == v.capacity) ≡ false → v.len + 1 ≤ v.capacity
      grew e = ground (arith, h.room)

  pub push_room :
      (v : SharedVec) (mem : ℕ → Option T) (x : T)
      → v.len < v.capacity
      → push size_of v mem x
        ≡ (record v { len = v.len + 1 }, write mem (elem_ptr size_of v v.len) x, ok tt)
  unfolding push
  push_room v mem x room = ground arith

  -- `get` gives a reference to the element at an index of the list, and nothing past its end.
  pub get-Holds :
      (v : SharedVec) (mem : ℕ → Option T) (xs : List T) (i : ℕ)
      → Holds v mem xs
      → elim (get size_of v i) [ none ↦ none | some p ↦ mem p ] ≡ get_elem? xs i
  unfolding get
  get-Holds v mem xs i h = elim (dec_lt i v.len) [
    | yes lt ↦ rw (leb-false v.len i lt) (h.cells i lt)
    | no ge ↦ rw (le→leb v.len i (omega arith)) (sym (get_elem?-none xs i (omega (arith, h.count))))
  ]
    where
      leb-false : (n i : ℕ) → i < n → leb n i ≡ false
      leb-false n i lt = ground arith

abbrev pub Opened : ℕ → Result SharedVec → Type 0
Opened n r =
    ((e : SharedError) × (r ≡ err e))
    ⊎ ((p : ℕ) × (r ≡ ok (record { ptr = p; len = 0; capacity = n })))

opened :
    (n : ℕ) (o : Option ℕ)
    → Opened n (elim o [
      | none ↦ err out_of_memory
      | some p ↦ ok (record { ptr = p; len = 0; capacity = n })
    ])
opened n none = inl (out_of_memory, refl)
opened n (some p) = inr (p, refl)

pub with_capacity_cases :
    (l : Layout) (a : BumpAllocator) (n : ℕ) → Opened n (with_capacity l a n).1
unfolding with_capacity
with_capacity_cases l a n = split (array_layout l n)
  where
    split :
        (o : Option Layout)
        → Opened n
            (elim o as (λ x. BumpAllocator × Result SharedVec) [
              | none ↦ (a, err bad_layout)
              | some l' ↦
                  let (a', pc) = alloc l' a in
                  (
                    a',
                    elim (pointer pc) [
                      | none ↦ err out_of_memory
                      | some p ↦ ok (record { ptr = p; len = 0; capacity = n })
                    ],
                  )
            ]).1
    split none = inl (bad_layout, refl)
    split (some l') = opened n (pointer (alloc l' a).1)
