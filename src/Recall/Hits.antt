-- ===== src/Recall/Hits.antt =====
-- The recall of include/qvcache/utils.h over hits only, against that over all queries.
use qvcache.Common.{
  ℕ, zero, suc, ◌+◌, ◌<◌, lt→ltb, List, [], ◌∷◌, Bool, true, false, none, some, ◌>>=◌, length,
  get_elem?, ◌≡◌, refl, ap, arith, Option-cases, ◌⊎◌, inl, inr,
}
use qvcache.Floats.{Floats}
use qvcache.Recall.{
  query_matches, recall_by_query, calculate_recall, recall_of_hits, calculate_hit_recall,
}

module _ (F : Floats) where
  open F use {Real, div, of_size}

  loops_agree :
      (K : ℕ) (groundtruth_ids tags : List ℕ) (hits : List Bool) (dim i n : ℕ)
      → ((j : ℕ) → j < i + n → get_elem? hits j ≡ some true)
      → recall_of_hits F K groundtruth_ids tags hits dim i n
        ≡ recall_by_query F K groundtruth_ids tags dim i n
  unfolding recall_of_hits recall_by_query
  loops_agree K groundtruth_ids tags hits dim i zero h = refl
  loops_agree K groundtruth_ids tags hits dim i (suc n) h =
      rw
        (
          h i (omega arith),
          loops_agree K groundtruth_ids tags hits dim (suc i) n (λ j l. h j (omega (arith, l))),
        )
        refl

  -- A loop that reads within bounds gives one recall for each query.
  recall_by_query-cases :
      (K : ℕ) (groundtruth_ids tags : List ℕ) (dim i n : ℕ)
      → (recall_by_query F K groundtruth_ids tags dim i n ≡ none)
        ⊎ ((rs : List Real) × (recall_by_query F K groundtruth_ids tags dim i n ≡ some rs)
            × (length rs ≡ n))
  unfolding recall_by_query
  recall_by_query-cases K groundtruth_ids tags dim i zero = inr ([], refl, refl)
  recall_by_query-cases K groundtruth_ids tags dim i (suc n) =
      elim (Option-cases (query_matches K groundtruth_ids tags dim i)) [
        | inl e ↦ inl (rw (e, recall_by_query) refl)
        | inr (m, e) ↦ elim (recall_by_query-cases K groundtruth_ids tags dim (suc i) n) [
          | inl r ↦ inl (rw (e, recall_by_query, r) refl)
          | inr (rs, r, len) ↦
              inr (div (of_size m) (of_size K) ∷ rs, rw (e, recall_by_query, r) refl, ap suc len)
        ]
      ]

  -- When all of the queries were hits, and there is one, the recall of the hits is the recall of all,
  -- and it counts every query; either is a read out of bounds if the other is.
  pub all_hits :
      (K : ℕ) (groundtruth_ids tags : List ℕ) (hits : List Bool) (query_num dim : ℕ)
      → 0 < query_num
      → ((j : ℕ) → j < query_num → get_elem? hits j ≡ some true)
      → calculate_hit_recall F K groundtruth_ids tags hits query_num dim ≡ (
          calculate_recall F K groundtruth_ids tags query_num dim >>= λ m.
          some (record { recall_cache_hits = m.recall_all; cache_hit_count = query_num }))
  unfolding calculate_hit_recall calculate_recall
  all_hits K groundtruth_ids tags hits query_num dim pos h =
      let agree =
        loops_agree K groundtruth_ids tags hits dim 0 query_num (λ j l. h j (omega (arith, l))) in
      elim (recall_by_query-cases K groundtruth_ids tags dim 0 query_num) [
        | inl e ↦ rw (agree, calculate_hit_recall, calculate_recall, e) refl
        | inr (rs, e, len) ↦
            rw (agree, calculate_hit_recall, calculate_recall, e, len, lt→ltb 0 query_num pos) refl
      ]

  no_hit_recalls :
      (K : ℕ) (groundtruth_ids tags : List ℕ) (hits : List Bool) (dim i n : ℕ)
      → ((j : ℕ) → j < i + n → get_elem? hits j ≡ some false)
      → recall_of_hits F K groundtruth_ids tags hits dim i n ≡ some []
  unfolding recall_of_hits
  no_hit_recalls K groundtruth_ids tags hits dim i zero h = refl
  no_hit_recalls K groundtruth_ids tags hits dim i (suc n) h =
      rw (h i (omega arith))
        (no_hit_recalls K groundtruth_ids tags hits dim (suc i) n (λ j l. h j (omega (arith, l))))

  -- When no query was a hit, the recall of the hits is -1.0 and it counts none, whatever the results.
  pub no_hits :
      (K : ℕ) (groundtruth_ids tags : List ℕ) (hits : List Bool) (query_num dim : ℕ)
      → ((j : ℕ) → j < query_num → get_elem? hits j ≡ some false)
      → calculate_hit_recall F K groundtruth_ids tags hits query_num dim
        ≡ some (record { recall_cache_hits = F.sub F.zero_real F.one_real; cache_hit_count = 0 })
  unfolding calculate_hit_recall
  no_hits K groundtruth_ids tags hits query_num dim h =
      rw
        (
          no_hit_recalls K groundtruth_ids tags hits dim 0 query_num
              (λ j l. h j (omega (arith, l))),
          calculate_hit_recall,
        )
        refl
