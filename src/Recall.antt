-- ===== src/Recall.antt =====
-- `calculate_recall` and `calculate_hit_recall` of include/qvcache/utils.h. A std::set is a list in
-- which no id stands twice; only its size and its members are used. A read out of bounds is none. The
-- loops count in an int32_t, so that there are fewer than 2 ^ 31 queries and neighbours.
pub mod Matches
pub mod Moved
pub mod Hits
use qvcache.Common.{
  ℕ, zero, suc, ◌+◌, ◌-◌, ◌*◌, ◌%◌, ◌^◌, ◌==◌, ltb, List, [], ◌∷◌, foldl, Bool, true, false,
  if◌then◌else◌, Option, none, some, ◌>>=◌, length, get_elem?,
}
use qvcache.Floats.{Floats}
use qvcache.Cache.{tag_max}
use qvcache.Search.{is_in}

unfoldable pub insert_id : ℕ → List ℕ → List ℕ
insert_id x ids = if is_in x ids then ids else x ∷ ids

unfoldable pub insert_groundtruth : List ℕ → List ℕ → List ℕ
unfolding insert_id
insert_groundtruth [] ids = ids
insert_groundtruth (x ∷ xs) ids = insert_groundtruth xs (insert_id x ids)

-- The largest id stands for no result.
unfoldable pub insert_valid : List ℕ → List ℕ → List ℕ
unfolding insert_id tag_max
insert_valid [] ids = ids
insert_valid (x ∷ xs) ids = insert_valid xs (if x == tag_max then ids else insert_id x ids)

-- The result tags are one above the ids.
unfoldable pub matching_neighbors : List ℕ → List ℕ → ℕ
matching_neighbors groundtruth [] = 0
matching_neighbors groundtruth (x ∷ xs) =
    let rest = matching_neighbors groundtruth xs in
    if is_in ((x + (2 ^ 32 - 1)) % 2 ^ 32) groundtruth then suc rest else rest

unfoldable pub slice : List ℕ → ℕ → ℕ → Option (List ℕ)
slice ids first zero = some []
slice ids first (suc n) = do
  x ← get_elem? ids first
  rest ← slice ids (suc first) n
  some (x ∷ rest)

-- The matches of query i.
unfoldable pub query_matches : ℕ → List ℕ → List ℕ → ℕ → ℕ → Option ℕ
unfolding insert_groundtruth insert_valid matching_neighbors slice
query_matches K groundtruth_ids query_result_tags groundtruth_dim i = do
  groundtruth ← slice groundtruth_ids (i * groundtruth_dim) K
  results ← slice query_result_tags (i * K) K
  some (matching_neighbors (insert_groundtruth groundtruth []) (insert_valid results []))

module _ (F : Floats) where
  open F use {Real, zero_real, one_real, add, sub, div, of_size, lt_real}

  pub record RecallAllMetrics : Type 0 where
    pub recall_all : Real
    pub K : ℕ
    pub low_recall_queries : ℕ
    pub very_low_recall_queries : ℕ

  pub record RecallHitMetrics : Type 0 where
    pub recall_cache_hits : Real
    pub cache_hit_count : ℕ

  -- The recall of the n queries from i on.
  unfoldable pub recall_by_query : ℕ → List ℕ → List ℕ → ℕ → ℕ → ℕ → Option (List Real)
  recall_by_query K groundtruth_ids query_result_tags groundtruth_dim i zero = some []
  recall_by_query K groundtruth_ids query_result_tags groundtruth_dim i (suc n) = do
    m ← query_matches K groundtruth_ids query_result_tags groundtruth_dim i
    rest ← recall_by_query K groundtruth_ids query_result_tags groundtruth_dim (suc i) n
    some (div (of_size m) (of_size K) ∷ rest)

  unfoldable pub total_recall : List Real → Real
  total_recall recalls = foldl add zero_real recalls

  unfoldable pub count_below : Real → List Real → ℕ
  count_below bound [] = 0
  count_below bound (r ∷ rs) =
      let rest = count_below bound rs in if lt_real r bound then suc rest else rest

  unfoldable pub calculate_recall : ℕ → List ℕ → List ℕ → ℕ → ℕ → Option RecallAllMetrics
  unfolding recall_by_query total_recall count_below
  calculate_recall K groundtruth_ids query_result_tags query_num groundtruth_dim = do
    recalls ← recall_by_query K groundtruth_ids query_result_tags groundtruth_dim 0 query_num
    some (record {
      recall_all = div (total_recall recalls) (of_size query_num);
      K = K % 2 ^ 32;
      low_recall_queries = count_below (div one_real (of_size 2)) recalls;
      very_low_recall_queries = count_below (div one_real (of_size 10)) recalls;
    })

  -- The same for the queries that were hits.
  unfoldable pub recall_of_hits : ℕ → List ℕ → List ℕ → List Bool → ℕ → ℕ → ℕ → Option (List Real)
  recall_of_hits K groundtruth_ids query_result_tags hit_results groundtruth_dim i zero = some []
  recall_of_hits K groundtruth_ids query_result_tags hit_results groundtruth_dim i (suc n) = do
    hit ← get_elem? hit_results i
    if hit
        then (do
          m ← query_matches K groundtruth_ids query_result_tags groundtruth_dim i
          rest ←
              recall_of_hits K groundtruth_ids query_result_tags hit_results groundtruth_dim (suc i)
                n
          some (div (of_size m) (of_size K) ∷ rest))
        else recall_of_hits K groundtruth_ids query_result_tags hit_results groundtruth_dim (suc i)
            n

  unfoldable pub calculate_hit_recall :
      ℕ → List ℕ → List ℕ → List Bool → ℕ → ℕ → Option RecallHitMetrics
  unfolding recall_of_hits total_recall
  calculate_hit_recall K groundtruth_ids query_result_tags hit_results query_num groundtruth_dim =
      do
        recalls ←
            recall_of_hits K groundtruth_ids query_result_tags hit_results groundtruth_dim 0
              query_num
        some (record {
          recall_cache_hits =
              if ltb 0 (length recalls)
              then div (total_recall recalls) (of_size (length recalls))
              else sub zero_real one_real;
          cache_hit_count = length recalls;
        })
