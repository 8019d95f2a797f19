-- ===== src/Recall/Moved.antt =====
-- The recall of include/qvcache/utils.h for an answer that is the ground truth.
use qvcache.Common.{
  ℕ, suc, ◌+◌, ◌-◌, ◌*◌, ◌%◌, ◌^◌, ◌==◌, ◌<◌, List, [], ◌∷◌, map, true, false, some, length,
  length-map, All, ◌≡◌, ◌≢◌, refl, ap, ◌∙◌, arith, Bool-cases, inl, inr,
}
use qvcache.Cache.{tag_max}
use qvcache.Search.{is_in}
use qvcache.Recall.{
  insert_id, insert_groundtruth, insert_valid, matching_neighbors, slice, query_matches,
}
use qvcache.Recall.Matches.{length-slice}

-- The tag of an id, as a search returns it.
abbrev pub moved : ℕ → ℕ
moved t = (t + 1) % 2 ^ 32

-- No id stands twice.
abbrev pub Unique : List ℕ → Type 0
Unique [] = Unit
Unique (x ∷ xs) = All (λ y. x ≢ y) xs × Unique xs

-- The difference by one is undone, on 32 bits.
moved-back : (t : ℕ) → t < 2 ^ 32 → (moved t + (2 ^ 32 - 1)) % 2 ^ 32 ≡ t
moved-back t h = omega arith

insert_id-keeps : (z x : ℕ) (ids : List ℕ) → is_in z ids ≡ true → is_in z (insert_id x ids) ≡ true
unfolding insert_id is_in
insert_id-keeps z x ids h = elim (Bool-cases (is_in x ids)) [
  | inl e ↦ rw (e) h
  | inr e ↦ elim (Bool-cases (x == z)) [ inl c ↦ rw (e, c) refl | inr c ↦ rw (e, c) h ]
]

insert_id_self : (x : ℕ) (ids : List ℕ) → is_in x (insert_id x ids) ≡ true
unfolding insert_id is_in
insert_id_self x ids = elim (Bool-cases (is_in x ids)) [
  | inl e ↦ rw (e) e
  | inr e ↦ rw (e) (ground arith)
]

insert_groundtruth-keeps :
    (z : ℕ) (xs ids : List ℕ) → is_in z ids ≡ true → is_in z (insert_groundtruth xs ids) ≡ true
unfolding insert_groundtruth
insert_groundtruth-keeps z [] ids h = h
insert_groundtruth-keeps z (x ∷ xs) ids h =
    insert_groundtruth-keeps z xs (insert_id x ids) (insert_id-keeps z x ids h)

insert_groundtruth-All :
    (xs ids : List ℕ) → All (λ t. is_in t (insert_groundtruth xs ids) ≡ true) xs
unfolding insert_groundtruth
insert_groundtruth-All [] ids = tt
insert_groundtruth-All (x ∷ xs) ids = (
  insert_groundtruth-keeps x xs (insert_id x ids) (insert_id_self x ids),
  insert_groundtruth-All xs (insert_id x ids),
)

insert_id-All : (P : ℕ → Type 0) (x : ℕ) (ids : List ℕ) → P x → All P ids → All P (insert_id x ids)
unfolding insert_id
insert_id-All P x ids p h = elim (Bool-cases (is_in x ids)) [
  | inl e ↦ rw (e) h
  | inr e ↦ rw (e) (p, h)
]

insert_valid-All :
    (P : ℕ → Type 0) (xs ids : List ℕ) → All P xs → All P ids → All P (insert_valid xs ids)
unfolding insert_valid tag_max
insert_valid-All P [] ids h k = k
insert_valid-All P (x ∷ xs) ids h k = elim (Bool-cases (x == tag_max)) [
  | inl e ↦ rw (e) (insert_valid-All P xs ids h.1 k)
  | inr e ↦ rw (e) (insert_valid-All P xs (insert_id x ids) h.1 (insert_id-All P x ids h.0 k))
]

matching_neighbors-all :
    (groundtruth xs : List ℕ)
    → All (λ x. is_in ((x + (2 ^ 32 - 1)) % 2 ^ 32) groundtruth ≡ true) xs
    → matching_neighbors groundtruth xs ≡ length xs
unfolding matching_neighbors
matching_neighbors-all groundtruth [] h = refl
matching_neighbors-all groundtruth (x ∷ xs) h =
    rw (h.0) (ap suc (matching_neighbors-all groundtruth xs h.1))

fresh-insert_id : (x : ℕ) (ids : List ℕ) → is_in x ids ≡ false → insert_id x ids ≡ x ∷ ids
unfolding insert_id
fresh-insert_id x ids h = rw (h) refl

fresh-All :
    (x : ℕ) (ys ids : List ℕ)
    → All (λ y. x ≢ y) ys
    → All (λ y. is_in y ids ≡ false) ys
    → All (λ y. is_in y (x ∷ ids) ≡ false) ys
unfolding is_in
fresh-All x [] ids ne h = tt
fresh-All x (y ∷ ys) ids ne h = (rw (ne_false x y ne.0) h.0, fresh-All x ys ids ne.1 h.1)
  where
    ne_false : (a b : ℕ) → a ≢ b → (a == b) ≡ false
    ne_false a b n = ground arith

-- Distinct tags that are set all enter the set.
length-insert_valid_fresh :
    (xs ids : List ℕ)
    → Unique xs
    → All (λ x. is_in x ids ≡ false) xs
    → All (λ x. (x == tag_max) ≡ false) xs
    → length (insert_valid xs ids) ≡ length xs + length ids
unfolding insert_valid
length-insert_valid_fresh [] ids u h v = omega arith
length-insert_valid_fresh (x ∷ xs) ids u h v =
    rw (v.0, insert_valid, fresh-insert_id x ids h.0)
      (length-insert_valid_fresh xs (x ∷ ids) u.1 (fresh-All x xs ids u.0 h.1) v.1 ∙ shift)
  where
    shift : length xs + suc (length ids) ≡ suc (length xs) + length ids
    shift = omega arith

-- An id whose tag is neither 0 nor the largest.
abbrev pub Small : ℕ → Type 0
Small t = t < 2 ^ 32 - 2

moved-ne : (x y : ℕ) → Small x → Small y → x ≢ y → moved x ≢ moved y
moved-ne x y a b n e = n (omega (arith, e))

moved-All_ne :
    (x : ℕ) (ys : List ℕ)
    → Small x
    → All Small ys
    → All (λ y. x ≢ y) ys
    → All (λ y. moved x ≢ y) (map moved ys)
moved-All_ne x [] a b n = tt
moved-All_ne x (y ∷ ys) a b n = (moved-ne x y a b.0 n.0, moved-All_ne x ys a b.1 n.1)

moved-Unique : (row : List ℕ) → Unique row → All Small row → Unique (map moved row)
moved-Unique [] u b = tt
moved-Unique (x ∷ xs) u b = (moved-All_ne x xs b.0 b.1 u.0, moved-Unique xs u.1 b.1)

moved-set : (row : List ℕ) → All Small row → All (λ x. (x == tag_max) ≡ false) (map moved row)
unfolding tag_max
moved-set [] b = tt
moved-set (x ∷ xs) b = (is_set x b.0, moved-set xs b.1)
  where
    is_set : (t : ℕ) → Small t → (moved t == 2 ^ 32 - 1) ≡ false
    is_set t h = ground arith

moved-found :
    (row groundtruth : List ℕ)
    → All Small row
    → All (λ t. is_in t groundtruth ≡ true) row
    → All (λ x. is_in ((x + (2 ^ 32 - 1)) % 2 ^ 32) groundtruth ≡ true) (map moved row)
moved-found [] groundtruth b h = tt
moved-found (t ∷ row) groundtruth b h = (
  ap (λ i. is_in i groundtruth) (moved-back t (omega (arith, b.0))) ∙ h.0,
  moved-found row groundtruth b.1 h.1,
)

none_in : (xs : List ℕ) → All (λ x. is_in x [] ≡ false) xs
unfolding is_in
none_in [] = tt
none_in (x ∷ xs) = (refl, none_in xs)

-- When the ground truth of a query is K distinct ids below 2 ^ 32 - 2, and its result is their tags,
-- each one above the id, as the cache returns what its backend has answered, then all K match.
pub query_matches-moved :
    (K : ℕ) (groundtruth_ids tags row : List ℕ) (dim i : ℕ)
    → slice groundtruth_ids (i * dim) K ≡ some row
    → slice tags (i * K) K ≡ some (map moved row)
    → Unique row
    → All Small row
    → query_matches K groundtruth_ids tags dim i ≡ some K
unfolding query_matches
query_matches-moved K groundtruth_ids tags row dim i e e' u b =
    let groundtruth = insert_groundtruth row [] in
    let found = moved-found row groundtruth b (insert_groundtruth-All row []) in
    let all = matching_neighbors-all groundtruth (insert_valid (map moved row) []) (
      insert_valid-All (λ x. is_in ((x + (2 ^ 32 - 1)) % 2 ^ 32) groundtruth ≡ true) (map moved row)
        [] found tt) in
    let size =
      length-insert_valid_fresh (map moved row) [] (moved-Unique row u b) (none_in (map moved row))
        (moved-set row b) in
    rw (e, query_matches, e')
      (ap some (
        all
        ∙ omega
            (arith, size, length-map moved row, length-slice groundtruth_ids row (i * dim) K e)))
