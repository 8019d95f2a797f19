-- ===== src/Search/Collected.antt =====
-- The shards that the search of include/qvcache/qvcache.h turns to are shards that exist: what it
-- collects, finds occupied, puts in order and finds with results.
use qvcache.Common.{
  All-set, ◌⊎◌, ℕ, zero, suc, ◌+◌, ◌≤◌, ◌<◌, ltb, List, [], ◌∷◌, ◌++◌, map, Option, false, none,
  some, length, length-set, get_elem?, get_elem?-some, set, All, ◌≡◌, refl, ap, ◌∙◌, subst, arith,
  Bool-cases, Option-cases, inl, inr,
}
use qvcache.Floats.{Floats}
use qvcache.Region.Key.{Coordinate}
use qvcache.Merge.{AllResults}
use qvcache.Cache.{Diskann}
use qvcache.QvCache.{Backend, QvCache}
use qvcache.Search.{Engines, blanks, search_index, search_shard, store, collect, no_results}
use qvcache.Search.Parallel.{occupied_from, fullest_from, fullest_first, with_results}
use qvcache.Search.Missed.{All-append_one}

length-blanks : (A : Type 0) (n : ℕ) → length (blanks {A = A} n) ≡ n
unfolding blanks
length-blanks A zero = refl
length-blanks A (suc n) = ap suc (length-blanks A n)

All-get_elem? :
    {A : Type 0} (P : A → Type 0) (xs : List A) (i : ℕ) (x : A)
    → All P xs
    → get_elem? xs i ≡ some x
    → P x
All-get_elem? P [] i x h e = cc
All-get_elem? P (y ∷ ys) zero x h e = subst P (by_some e) h.0
  where
    by_some : some y ≡ some x → y ≡ x
    by_some e = cc
All-get_elem? P (y ∷ ys) (suc i) x h e = All-get_elem? P ys i x h.1 e

weaken-below : (n m : ℕ) (ids : List ℕ) → n ≤ m → All (λ id. id < n) ids → All (λ id. id < m) ids
weaken-below n m [] l h = tt
weaken-below n m (id ∷ ids) l h = (omega (arith, l, h.0), weaken-below n m ids l h.1)

module _ (F : Floats) (Vec : Type 0) (project : Vec → List (Coordinate F)) (D : Diskann Vec)
    (B : Backend Vec) (E : Engines F Vec D B) where
  abbrev Q : Type 0
  Q = QvCache F Vec project D B

  -- A shard with results has a place.
  with_results-below :
      (i : ℕ) (all_tags : List (List ℕ))
      → All (λ id. id < i + length all_tags) (with_results F Vec project D B E i all_tags)
  unfolding with_results
  with_results-below i [] = tt
  with_results-below i ([] ∷ all_tags) =
      weaken-below _ _ (with_results F Vec project D B E (suc i) all_tags) (omega arith)
        (with_results-below (suc i) all_tags)
  with_results-below i ((t ∷ ts) ∷ all_tags) = (
    omega arith,
    weaken-below _ _ (with_results F Vec project D B E (suc i) all_tags) (omega arith)
        (with_results-below (suc i) all_tags),
  )

  -- No search of an index throws when its list holds K.
  pub search_shard-runs :
      (q : Q) (query : Vec) (K id : ℕ)
      → K ≤ E.memory_L
      → (search_shard F Vec project D B E q query K id ≡ some none)
        ⊎ ((found : List (ℕ × F.Real)) × (search_shard F Vec project D B E q query K id
              ≡ some (some found)))
  unfolding search_shard search_index
  search_shard-runs q query K id small =
      elim (Option-cases (get_elem? q.shards.memory_indices id)) [
        | inl e ↦ inl (rw (e, search_shard) refl)
        | inr (index, e) ↦
            let fits : ltb E.memory_L K ≡ false = ground arith in
            elim (Bool-cases (ltb 0 (D.active index))) [
              | inl c ↦
                  inr (
                    E.search_with_tags query K E.memory_L index,
                    rw (e, search_shard, c, fits) refl,
                  )
              | inr c ↦ inl (rw (e, search_shard, c) refl)
            ]
      ]

  -- A collection that returns: only listed shards were searched, and there is a place for the results
  -- of each shard, before and after.
  abbrev pub Collects :
      (ℕ → Type 0) → AllResults F Vec → Option (AllResults F Vec × List ℕ) → Type 0
  Collects P all r =
      (all' : AllResults F Vec) × (searched : List ℕ) × (r ≡ some (all', searched))
      × All P searched
      × (length all'.all_tags ≡ length all.all_tags)

  pub collect-Collects :
      (P : ℕ → Type 0) (q : Q) (query : Vec) (K : ℕ) (ids : List ℕ) (all : AllResults F Vec)
      (searched : List ℕ)
      → K ≤ E.memory_L
      → All P ids
      → All P searched
      → Collects P all (collect F Vec project D B E q query K ids (all, searched))
  unfolding collect store
  collect-Collects P q query K [] all searched small h s = (all, searched, refl, s, refl)
  collect-Collects P q query K (id ∷ ids) all searched small h s =
      elim (search_shard-runs q query K id small) [
        | inl e ↦
            let (all', searched', ran, inside, len) =
              collect-Collects P q query K ids all searched small h.1 s in
            (all', searched', rw (e, collect) ran, inside, len)
        | inr (found, e) ↦
            let (all', searched', ran, inside, len) =
              collect-Collects P q query K ids (store F Vec project D B E all id found)
                (searched ++ id ∷ []) small h.1 (All-append_one P searched id s h.0) in
            (
              all',
              searched',
              rw (e, collect) ran,
              inside,
              len ∙ length-set all.all_tags id (map (λ r. r.0) found),
            )
      ]

  -- The shards with results are among the n shards that there are.
  pub with_results-Inside :
      (n : ℕ) (all : AllResults F Vec)
      → length all.all_tags ≡ length (no_results F Vec project D B E n).all_tags
      → All (λ id. id < n) (with_results F Vec project D B E 0 all.all_tags)
  unfolding no_results
  with_results-Inside n all e =
      weaken-below _ n _ (omega (arith, e, length-blanks ℕ n)) (with_results-below 0 _)

  occupied_from-Inside :
      (q : Q) (i n : ℕ)
      → i + n ≤ length q.shards.memory_indices
      → (ids : List ℕ) × (occupied_from F Vec project D B E q i n ≡ some ids)
        × All (λ id. id < length q.shards.memory_indices) ids
  unfolding occupied_from
  occupied_from-Inside q i zero h = ([], refl, tt)
  occupied_from-Inside q i (suc n) h =
      let (index, e) = get_elem?-some q.shards.memory_indices i (omega arith) in
      let (rest, ran, inside) = occupied_from-Inside q (suc i) n (omega arith) in
      elim (Bool-cases (ltb 0 (D.active index))) [
        | inl c ↦ (i ∷ rest, rw (e, occupied_from, ran, c) refl, (omega (arith, h), inside))
        | inr c ↦ (rest, rw (e, occupied_from, ran, c) refl, inside)
      ]

  -- The check for points reads every shard, and none out of bounds.
  pub occupied-Inside :
      (q : Q) (n : ℕ)
      → n ≡ length q.shards.memory_indices
      → (ids : List ℕ) × (occupied_from F Vec project D B E q 0 n ≡ some ids)
        × All (λ id. id < length q.shards.memory_indices) ids
  occupied-Inside q n e = occupied_from-Inside q 0 n (omega (arith, e))

  -- The fullest shard moves within the list.
  pub fullest_first-All :
      (P : ℕ → Type 0) (q : Q) (ids : List ℕ)
      → All P ids
      → All P (fullest_first F Vec project D B E q ids)
  unfolding fullest_first
  fullest_first-All P q [] h = tt
  fullest_first-All P q (id ∷ ids) h = swapped (fullest_from F Vec project D B E q 0 id 1 ids)
    where
      swapped :
          (k : ℕ)
          → All P (elim k [
            | zero ↦ id ∷ ids
            | suc k ↦ elim (get_elem? ids k) [
              | none ↦ id ∷ ids
              | some fullest ↦ fullest ∷ set ids k id
            ]
          ])
      swapped zero = h
      swapped (suc k) = elim (Option-cases (get_elem? ids k)) [
        | inl e ↦ rw (e) h
        | inr (fullest, e) ↦
            rw (e) (All-get_elem? P ids k fullest h.1 e, All-set P ids k id h.1 h.0)
      ]
