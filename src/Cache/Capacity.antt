-- ===== src/Cache/Capacity.antt =====
-- The choice of a shard, `find_shard_with_capacity` of include/qvcache/qvcache.h.
use qvcache.Common.{
  ℕ, suc, ◌+◌, ◌≤◌, ◌<◌, ltb, List, [], ◌∷◌, true, false, some, get_elem?, All, ◌≡◌, refl, sym,
  subst, arith, Bool-cases, ◌⊎◌, inl, inr,
}
use qvcache.Cache.{Diskann, Cache, size_max, has_slots, find_loop, find_shard_with_capacity}

module _ (Vec : Type 0) (D : Diskann Vec) where
  open D use {Index, create, active, lazy_deleted}

  -- A shard that is full or holds at least so many points.
  abbrev pub NoBetter : ℕ → ℕ → Index → Type 0
  NoBetter max_points load index =
      (has_slots Vec D max_points index ≡ false) ⊎ (load ≤ active index)

  -- The shard found: one with a free slot that holds the fewest points of all those.
  pub record Found (max_points k : ℕ) (indices : List Index) : Type 0 where
    pub index : Index
    pub there : get_elem? indices k ≡ some index
    pub free : has_slots Vec D max_points index ≡ true
    pub least : All (NoBetter max_points (active index)) indices

  -- What the loop from shard i on adds to the best so far.
  record FoundLater (max_points i load r : ℕ) (indices : List Index) : Type 0 where
    k : ℕ
    at : r ≡ i + k
    found : Found max_points k indices
    less : active found.index < load

  abbrev Outcome : ℕ → ℕ → List Index → ℕ → ℕ → ℕ → Type 0
  Outcome max_points i indices best load r =
      ((r ≡ best) × All (NoBetter max_points load) indices) ⊎ FoundLater max_points i load r indices

  skip :
      (max_points i : ℕ) (index : Index) (rest : List Index) (best load r : ℕ)
      → NoBetter max_points load index
      → Outcome max_points (suc i) rest best load r
      → Outcome max_points i (index ∷ rest) best load r
  skip max_points i index rest best load r b (inl o) = inl (o.0, (b, o.1))
  skip max_points i index rest best load r b (inr o) = inr record {
    k = suc o.k;
    at = omega (arith, o.at);
    found = record {
      index = o.found.index;
      there = o.found.there;
      free = o.found.free;
      least = (elim b [ inl f ↦ inl f | inr l ↦ inr (omega (arith, o.less)) ], o.found.least);
    };
    less = o.less;
  }

  choose :
      (max_points i : ℕ) (index : Index) (rest : List Index) (best load r : ℕ)
      → has_slots Vec D max_points index ≡ true
      → active index < load
      → Outcome max_points (suc i) rest i (active index) r
      → Outcome max_points i (index ∷ rest) best load r
  choose max_points i index rest best load r f l (inl o) = inr record {
    k = 0;
    at = omega (arith, o.0);
    found = record { index = index; there = refl; free = f; least = (inr (omega arith), o.1) };
    less = l;
  }
  choose max_points i index rest best load r f l (inr o) = inr record {
    k = suc o.k;
    at = omega (arith, o.at);
    found = record {
      index = o.found.index;
      there = o.found.there;
      free = o.found.free;
      least = (inr (omega (arith, o.less)), o.found.least);
    };
    less = omega (arith, o.less);
  }

  find_loop-Outcome :
      (max_points i : ℕ) (indices : List Index) (best load : ℕ)
      → Outcome max_points i indices best load (find_loop Vec D max_points i indices best load)
  unfolding find_loop
  find_loop-Outcome max_points i [] best load = inl (refl, tt)
  find_loop-Outcome max_points i (index ∷ rest) best load =
      let Result : ℕ → Type 0 = Outcome max_points i (index ∷ rest) best load in
      elim (Bool-cases (has_slots Vec D max_points index)) [
        | inl f ↦ elim (Bool-cases (ltb (active index) load)) [
          | inl l ↦ subst Result (sym (better f l)) (
              choose max_points i index rest best load _ f (ground (arith, l))
                (find_loop-Outcome max_points (suc i) rest i (active index)))
          | inr l ↦ subst Result (sym (worse f l)) (
              skip max_points i index rest best load _ (inr (ground (arith, l)))
                (find_loop-Outcome max_points (suc i) rest best load))
        ]
        | inr f ↦ subst Result (sym (no_slots f)) (
            skip max_points i index rest best load _ (inl f)
              (find_loop-Outcome max_points (suc i) rest best load))
      ]
    where
      better :
          has_slots Vec D max_points index ≡ true
          → ltb (active index) load ≡ true
          → find_loop Vec D max_points i (index ∷ rest) best load
            ≡ find_loop Vec D max_points (suc i) rest i (active index)
      better f l = rw (f, find_loop, l) refl

      worse :
          has_slots Vec D max_points index ≡ true
          → ltb (active index) load ≡ false
          → find_loop Vec D max_points i (index ∷ rest) best load
            ≡ find_loop Vec D max_points (suc i) rest best load
      worse f l = rw (f, find_loop, l) refl

      no_slots :
          has_slots Vec D max_points index ≡ false
          → find_loop Vec D max_points i (index ∷ rest) best load
            ≡ find_loop Vec D max_points (suc i) rest best load
      no_slots f = rw (f, find_loop) refl

  full :
      (max_points : ℕ) (indices : List Index)
      → max_points ≤ size_max
      → All (NoBetter max_points size_max) indices
      → All (λ index. has_slots Vec D max_points index ≡ false) indices
  unfolding has_slots
  full max_points [] h a = tt
  full max_points (index ∷ rest) h a =
      (elim a.0 [ inl f ↦ f | inr l ↦ ground arith ], full max_points rest h a.1)

  -- The search gives the largest number if every shard is full, and otherwise a shard with a free
  -- slot that holds the fewest points of all with one; sizes fit in a `size_t`.
  pub find_shard_with_capacity-Found :
      (c : Cache Vec D)
      → c.max_points_per_index ≤ size_max
      → ((find_shard_with_capacity Vec D c ≡ size_max)
          × All (λ index. has_slots Vec D c.max_points_per_index index ≡ false) c.memory_indices)
        ⊎ Found c.max_points_per_index (find_shard_with_capacity Vec D c) c.memory_indices
  unfolding find_shard_with_capacity
  find_shard_with_capacity-Found c h =
      elim (find_loop-Outcome c.max_points_per_index 0 c.memory_indices size_max size_max) [
        | inl o ↦ inl (o.0, full c.max_points_per_index c.memory_indices h o.1)
        | inr o ↦
            let same : o.k ≡ find_shard_with_capacity Vec D c = omega (arith, o.at) in
            inr (subst (λ k. Found c.max_points_per_index k c.memory_indices) same o.found)
      ]
