-- ===== src/Search/Parallel.antt =====
-- `parallel_search_memory_indices` and `search` of include/qvcache/qvcache.h. The jobs write to
-- different places and read what no job writes, so that their results do not depend on the order;
-- the model runs them in the order of the list. An exception of a job leaves the search.
use qvcache.Common.{
  ℕ, zero, suc, ltb, List, [], ◌∷◌, map, true, false, if◌then◌else◌, Option, none, some, ◌>>=◌,
  get_elem?, set,
}
use qvcache.Floats.{Floats}
use qvcache.Region.Key.{Coordinate}
use qvcache.Merge.{MergedResult}
use qvcache.Cache.{Diskann}
use qvcache.QvCache.{Backend, QvCache}
use qvcache.Search.{
  Engines, Answer, search_shard, collect, no_results, answer_if_hit, attempt_single, or_try,
  or_else, attempt_merged, search_sequential, handle_backend_miss,
}

module _ (F : Floats) (Vec : Type 0) (project : Vec → List (Coordinate F)) (D : Diskann Vec)
    (B : Backend Vec) (E : Engines F Vec D B) where
  open D use {Index, active}

  abbrev Q : Type 0
  Q = QvCache F Vec project D B

  -- The shards from i on that hold points; one that is not there is a read out of bounds.
  unfoldable pub occupied_from : Q → ℕ → ℕ → Option (List ℕ)
  occupied_from q i zero = some []
  occupied_from q i (suc n) = do
    index ← get_elem? q.shards.memory_indices i
    rest ← occupied_from q (suc i) n
    some (if ltb 0 (active index) then i ∷ rest else rest)

  unfoldable pub load : Q → ℕ → ℕ
  load q id = elim (get_elem? q.shards.memory_indices id) [ none ↦ 0 | some index ↦ active index ]

  -- The position of the fullest of the occupied shards, the first of them: the position and the
  -- shard of the best so far, and the next position.
  unfoldable pub fullest_from : Q → ℕ → ℕ → ℕ → List ℕ → ℕ
  unfolding load
  fullest_from q fullest best i [] = fullest
  fullest_from q fullest best i (id ∷ ids) = elim (ltb (load q best) (load q id)) [
    | true ↦ fullest_from q i id (suc i) ids
    | false ↦ fullest_from q fullest best (suc i) ids
  ]

  -- The fullest shard changes places with the first.
  unfoldable pub fullest_first : Q → List ℕ → List ℕ
  unfolding fullest_from
  fullest_first q [] = []
  fullest_first q (id ∷ ids) = elim (fullest_from q 0 id 1 ids) [
    | zero ↦ id ∷ ids
    | suc k ↦ elim (get_elem? ids k) [ none ↦ id ∷ ids | some fullest ↦ fullest ∷ set ids k id ]
  ]

  -- The shards from i on with results.
  unfoldable pub with_results : ℕ → List (List ℕ) → List ℕ
  with_results i [] = []
  with_results i ([] ∷ all_tags) = with_results (suc i) all_tags
  with_results i ((t ∷ tags) ∷ all_tags) = i ∷ with_results (suc i) all_tags

  unfoldable pub search_single_index : Q → Vec → ℕ → ℕ → Option (Q × Option (Answer F))
  unfolding search_shard
  search_single_index q query K id = elim (search_shard F Vec project D B E q query K id) [
    | none ↦ none
    | some r ↦ elim r [
      | none ↦ some (q, none)
      | some found ↦
          answer_if_hit F Vec project D B E q query K (id ∷ []) (map (λ r. r.0) found)
            (map (λ r. r.1) found)
    ]
  ]

  module _ (arrange : List (MergedResult F Vec) → List (MergedResult F Vec))
      (arrange_counts : List (ℕ × ℕ) → List (ℕ × ℕ)) where
    unfoldable pub search_occupied : Q → Vec → ℕ → List ℕ → Option (Q × Option (Answer F))
    search_occupied q query K [] = some (q, none)
    search_occupied q query K (id ∷ []) = search_single_index q query K id
    search_occupied q query K (id ∷ id' ∷ ids) = do
      (all, _) ←
          collect F Vec project D B E q query K (id ∷ id' ∷ ids)
            (no_results F Vec project D B E q.shards.number_of_mini_indexes, [])
      let searched = with_results 0 all.all_tags
      or_try F Vec project D B E (attempt_single F Vec project D B E q query K all searched)
          (λ q1. attempt_merged F Vec project D B E arrange arrange_counts q1 query K all searched)

    unfoldable pub parallel_search_memory_indices : Q → Vec → ℕ → Option (Q × Option (Answer F))
    unfolding search_occupied
    parallel_search_memory_indices q query K = do
      occupied ← occupied_from q 0 q.shards.number_of_mini_indexes
      search_occupied q query K (fullest_first q occupied)

    unfoldable pub search : Q → Vec → ℕ → Option (Q × Answer F)
    search q query K =
        if q.parallel
        then or_else F Vec project D B E (parallel_search_memory_indices q query K)
            (λ q'. handle_backend_miss F Vec project D B E q' query K)
        else search_sequential F Vec project D B E arrange arrange_counts q query K
