-- ===== src/Recall/Matches.antt =====
-- The matches that include/qvcache/utils.h counts for a query.
use qvcache.Common.{
  ℕ, zero, suc, ◌+◌, ◌-◌, ◌*◌, ◌%◌, ◌^◌, ◌==◌, ◌≤◌, List, [], ◌∷◌, Option, none, some, length,
  get_elem?, ◌≡◌, refl, sym, ap, ◌∙◌, arith, Bool-cases, Option-cases, ◌⊎◌, inl, inr,
}
use qvcache.Cache.{tag_max}
use qvcache.Search.{is_in}
use qvcache.Recall.{
  insert_id, insert_groundtruth, insert_valid, matching_neighbors, slice, query_matches,
}

matching_neighbors-le : (groundtruth xs : List ℕ) → matching_neighbors groundtruth xs ≤ length xs
unfolding matching_neighbors
matching_neighbors-le groundtruth [] = omega arith
matching_neighbors-le groundtruth (x ∷ xs) =
    elim (Bool-cases (is_in ((x + (2 ^ 32 - 1)) % 2 ^ 32) groundtruth)) [
      | inl e ↦ rw (e) (omega (arith, matching_neighbors-le groundtruth xs))
      | inr e ↦ rw (e) (omega (arith, matching_neighbors-le groundtruth xs))
    ]

length-insert_id : (x : ℕ) (ids : List ℕ) → length (insert_id x ids) ≤ suc (length ids)
unfolding insert_id
length-insert_id x ids = elim (Bool-cases (is_in x ids)) [
  | inl e ↦ rw (e) (omega arith)
  | inr e ↦ rw (e) (omega arith)
]

length-insert_valid : (xs ids : List ℕ) → length (insert_valid xs ids) ≤ length xs + length ids
unfolding insert_valid tag_max
length-insert_valid [] ids = omega arith
length-insert_valid (x ∷ xs) ids = elim (Bool-cases (x == tag_max)) [
  | inl e ↦ rw (e) (omega (arith, length-insert_valid xs ids))
  | inr e ↦ rw (e) (omega (arith, length-insert_valid xs (insert_id x ids), length-insert_id x ids))
]

slice-cases :
    (ids : List ℕ) (first n : ℕ)
    → (slice ids first n ≡ none)
      ⊎ ((row : List ℕ) × (slice ids first n ≡ some row) × (length row ≡ n))
unfolding slice
slice-cases ids first zero = inr ([], refl, refl)
slice-cases ids first (suc n) = elim (Option-cases (get_elem? ids first)) [
  | inl e ↦ inl (rw (e, slice) refl)
  | inr (x, e) ↦ elim (slice-cases ids (suc first) n) [
    | inl r ↦ inl (rw (e, slice, r) refl)
    | inr (row, r, len) ↦ inr (x ∷ row, rw (e, slice, r) refl, ap suc len)
  ]
]

pub length-slice : (ids row : List ℕ) (first n : ℕ) → slice ids first n ≡ some row → length row ≡ n
length-slice ids row first n e = elim (slice-cases ids first n) [
  | inl o ↦ cc
  | inr (row', e', len) ↦ ap (length_of n) (sym e ∙ e') ∙ len
]
  where
    length_of : ℕ → Option (List ℕ) → ℕ
    length_of n none = n
    length_of n (some row) = length row

-- A query has at most K matches, unless it reads out of bounds.
pub query_matches-le :
    (K : ℕ) (groundtruth_ids tags : List ℕ) (dim i : ℕ)
    → (query_matches K groundtruth_ids tags dim i ≡ none)
      ⊎ ((m : ℕ) × (query_matches K groundtruth_ids tags dim i ≡ some m) × (m ≤ K))
unfolding query_matches
query_matches-le K groundtruth_ids tags dim i = elim (slice-cases groundtruth_ids (i * dim) K) [
  | inl e ↦ inl (rw (e, query_matches) refl)
  | inr (groundtruth, e, len) ↦ elim (slice-cases tags (i * K) K) [
    | inl r ↦ inl (rw (e, query_matches, r) refl)
    | inr (results, r, len') ↦ inr (
      matching_neighbors (insert_groundtruth groundtruth []) (insert_valid results []),
      rw (e, query_matches, r) refl,
      omega (
        arith,
        len',
        matching_neighbors-le (insert_groundtruth groundtruth []) (insert_valid results []),
        length-insert_valid results [],
      ),
    )
  ]
]
