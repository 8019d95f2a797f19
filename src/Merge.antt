-- ===== src/Merge.antt =====
-- `merge_and_rerank_results` of include/qvcache/qvcache.h. A hash map is an association list, and
-- `arrange` is the order in which the program iterates over it: any rearrangement. As `std::sort`
-- leaves equal elements in any order, the stable sort of every rearrangement gives every outcome.
pub mod Order
pub mod Best
pub mod Result
pub mod Sources
use qvcache.Common.{
  ℕ, zero, suc, ◌+◌, min, List, [], ◌∷◌, map, Bool, true, false, if◌then◌else◌, ltb, Option, none,
  some, find, put, length, take, get_elem?, ℕ_discrete,
}
use qvcache.Floats.{Floats}

module _ {A : Type 0} (below : A → A → Bool) where
  unfoldable pub insert_sorted : A → List A → List A
  insert_sorted x [] = x ∷ []
  insert_sorted x (y ∷ ys) = if below y x then y ∷ insert_sorted x ys else x ∷ y ∷ ys

  -- `std::sort` by a comparison.
  unfoldable pub sort : List A → List A
  unfolding insert_sorted
  sort [] = []
  sort (x ∷ xs) = insert_sorted x (sort xs)

module _ (F : Floats) (Ptr : Type 0) where
  open F use {Real, lt_real}

  pub record MergedResult : Type 0 where
    pub tag : ℕ
    pub distance : Real
    pub vector_ptr : Option Ptr
    pub source_index_id : ℕ

  -- `tag_to_best`, with the tag kept in the value too.
  abbrev pub BestMap : Type 0
  BestMap = List (ℕ × MergedResult)

  -- One result: a new tag is added, a known one keeps the smaller distance.
  unfoldable pub absorb : MergedResult → BestMap → BestMap
  absorb r best = elim (find ℕ_discrete r.tag best) [
    | none ↦ put ℕ_discrete r.tag r best
    | some existing ↦
        if lt_real r.distance existing.distance then put ℕ_discrete r.tag r best else best
  ]

  -- The loop over the results of one index: as many as there are tags and distances.
  unfoldable pub scan_results : ℕ → List ℕ → List Real → List Ptr → BestMap → BestMap
  scan_results index_id (t ∷ ts) (d ∷ ds) [] best = scan_results index_id ts ds [] (
      absorb (record { tag = t; distance = d; vector_ptr = none; source_index_id = index_id }) best)
  scan_results index_id (t ∷ ts) (d ∷ ds) (p ∷ ps) best = scan_results index_id ts ds ps (
      absorb (record { tag = t; distance = d; vector_ptr = some p; source_index_id = index_id })
        best)
  scan_results index_id [] ds ps best = best
  scan_results index_id (t ∷ ts) [] ps best = best

  -- The three vectors `all_tags`, `all_dists` and `all_res`.
  pub record AllResults : Type 0 where
    pub all_tags : List (List ℕ)
    pub all_dists : List (List Real)
    pub all_res : List (List Ptr)

  -- The loop over the searched indexes; an id out of range is passed over.
  unfoldable pub scan_indexes : AllResults → List ℕ → BestMap → BestMap
  scan_indexes all [] best = best
  scan_indexes all (index_id ∷ ids) best =
      scan_indexes all ids (elim (get_elem? all.all_tags index_id) [
        | none ↦ best
        | some tags ↦ elim (get_elem? all.all_dists index_id) [
          | none ↦ best
          | some dists ↦ elim (get_elem? all.all_res index_id) [
            | none ↦ best
            | some res ↦ scan_results index_id tags dists res best
          ]
        ]
      ])

  unfoldable pub closer : MergedResult → MergedResult → Bool
  closer a b = lt_real a.distance b.distance

  abbrev pub fewer : ℕ × ℕ → ℕ × ℕ → Bool
  fewer a b = ltb a.1 b.1

  -- `contribution_counts[source_index_id]++` over the results.
  unfoldable pub count_sources : List MergedResult → List (ℕ × ℕ) → List (ℕ × ℕ)
  count_sources [] counts = counts
  count_sources (r ∷ rs) counts = count_sources rs (
      put ℕ_discrete r.source_index_id
        (suc (elim (find ℕ_discrete r.source_index_id counts) [ none ↦ zero | some n ↦ n ])) counts)

  module _ (arrange : List MergedResult → List MergedResult)
      (arrange_counts : List (ℕ × ℕ) → List (ℕ × ℕ)) where
    -- The best candidate for each tag, by distance.
    unfoldable pub ranked : AllResults → List ℕ → List MergedResult
    unfolding sort closer scan_indexes scan_results absorb
    ranked all index_ids = sort closer (arrange (map (λ e. e.1) (scan_indexes all index_ids [])))

    -- The first K candidates, and the indexes that contribute, from the least contributing on.
    unfoldable pub merge_and_rerank_results : AllResults → List ℕ → ℕ → List MergedResult × List ℕ
    unfolding ranked count_sources
    merge_and_rerank_results all index_ids K =
        let merged_candidates = ranked all index_ids in
        let merged = take (min K (length merged_candidates)) merged_candidates in
        (merged, map (λ c. c.0) (sort fewer (arrange_counts (count_sources merged []))))
