-- ===== src/Search/Strategies.antt =====
-- What the tries of the parallel strategy of include/qvcache/qvcache.h, and the try of the merged
-- results of both, come to.
use mathlib.Core.List.{Permᴰ}
use qvcache.Common.{
  ℕ, ◌≤◌, ◌<◌, List, [], ◌∷◌, false, none, some, ◌>>=◌, length, length-map, All, ◌≡◌, refl, sym,
  subst, arith, inl, inr, dec_le,
}
use qvcache.Floats.{Floats}
use qvcache.Region.Key.{Coordinate}
use qvcache.Merge.{MergedResult, AllResults}
use qvcache.Merge.Sources.{merge_and_rerank_results-All}
use qvcache.Cache.{Diskann, Cache, has_k_live_results}
use qvcache.Cache.Admission.Ready.{IsReady}
use qvcache.QvCache.{Backend, QvCache, is_hit}
use qvcache.QvCache.HitTest.{SameShards}
use qvcache.Search.{Engines, no_results, answer_if_hit, attempt_merged}
use qvcache.Search.Parallel.{
  with_results, fullest_first, search_single_index, search_occupied, parallel_search_memory_indices,
}
use qvcache.Search.Tried.{
  Tried, kept-IsReady, kept-All, or_try-Tried, answer_if_hit-Tried, refl-SameShards, attempt-Tried,
  attempt_single-Tried,
}
use qvcache.Search.Collected.{
  search_shard-runs, collect-Collects, with_results-Inside, occupied-Inside, fullest_first-All,
}

module _ (F : Floats) (Vec : Type 0) (project : Vec → List (Coordinate F)) (D : Diskann Vec)
    (B : Backend Vec) (E : Engines F Vec D B) where
  open F use {Real}

  abbrev Q : Type 0
  Q = QvCache F Vec project D B

  abbrev Same : Q → Q → Type 0
  Same = SameShards F Vec project D B

  -- An id of a shard.
  abbrev IsInside : Q → ℕ → Type 0
  IsInside q id = id < length q.shards.memory_indices

  few-not_live :
      (c : Cache Vec D) (K : ℕ) (tags : List ℕ)
      → length tags < K
      → has_k_live_results Vec D c K (some tags) (length tags) ≡ some false
  unfolding has_k_live_results
  few-not_live c K tags h = ground arith

  -- With fewer than K results there is no hit.
  answer_if_hit-few :
      (q : Q) (query : Vec) (K : ℕ) (ids tags : List ℕ) (ds : List Real)
      → length tags < K
      → answer_if_hit F Vec project D B E q query K ids tags ds ≡ some (q, none)
  unfolding answer_if_hit is_hit
  answer_if_hit-few q query K ids tags ds h =
      rw (few-not_live q.shards K tags h, is_hit, answer_if_hit) refl

  search_single_index-Tried :
      (q : Q) (query : Vec) (K id : ℕ)
      → IsReady Vec D q.shards
      → K ≤ E.memory_L
      → IsInside q id
      → Tried F Vec project D B E q K (search_single_index F Vec project D B E q query K id)
  unfolding search_single_index
  search_single_index-Tried q query K id h small inside =
      elim (search_shard-runs F Vec project D B E q query K id small) [
        | inl e ↦ inl (q, rw (e, search_single_index) refl, refl-SameShards F Vec project D B E q)
        | inr (found, e) ↦
            rw (e, search_single_index)
              (elim (dec_le K (length found)) [
                | yes enough ↦
                    answer_if_hit-Tried F Vec project D B E q query K (id ∷ []) _ _ h (inside, tt)
                      (omega (arith, enough, length-map (λ r. r.0) found))
                      (omega (arith, enough, length-map (λ r. r.1) found))
                | no few ↦ inl (
                  q,
                  answer_if_hit-few q query K (id ∷ []) _ _
                      (omega (arith, few, length-map (λ r. r.0) found)),
                  refl-SameShards F Vec project D B E q,
                )
              ])
      ]

  module _ (arrange : List (MergedResult F Vec) → List (MergedResult F Vec))
      (arrange_counts : List (ℕ × ℕ) → List (ℕ × ℕ))
      (perm : (l : List (MergedResult F Vec)) → Permᴰ l (arrange l))
      (perm_counts : (l : List (ℕ × ℕ)) → Permᴰ l (arrange_counts l)) where
    pub attempt_merged-Tried :
        (q : Q) (query : Vec) (K : ℕ) (all : AllResults F Vec) (searched : List ℕ)
        → IsReady Vec D q.shards
        → All (IsInside q) searched
        → Tried F Vec project D B E q K
            (attempt_merged F Vec project D B E arrange arrange_counts q query K all searched)
    unfolding attempt_merged
    attempt_merged-Tried q query K all searched h inside =
        attempt-Tried F Vec project D B E q query K _ _ _ h (
          merge_and_rerank_results-All F Vec (IsInside q) arrange arrange_counts all searched K perm
            perm_counts inside)

    search_occupied-Tried :
        (q : Q) (query : Vec) (K : ℕ) (ids : List ℕ)
        → IsReady Vec D q.shards
        → K ≤ E.memory_L
        → All (IsInside q) ids
        → Tried F Vec project D B E q K
            (search_occupied F Vec project D B E arrange arrange_counts q query K ids)
    unfolding search_occupied
    search_occupied-Tried q query K [] h small inside =
        inl (q, refl, refl-SameShards F Vec project D B E q)
    search_occupied-Tried q query K (id ∷ []) h small inside =
        search_single_index-Tried q query K id h small inside.0
    search_occupied-Tried q query K (id ∷ id' ∷ ids) h small inside =
        let n = q.shards.number_of_mini_indexes in
        let (all, searched, ran, listed, len) =
          collect-Collects F Vec project D B E (IsInside q) q query K (id ∷ id' ∷ ids)
            (no_results F Vec project D B E n) [] small inside tt in
        let below =
          subst (λ n. All (λ i. i < n) (with_results F Vec project D B E 0 all.all_tags)) h.shards
            (with_results-Inside F Vec project D B E n all len) in
        rw (ran, search_occupied)
          (or_try-Tried F Vec project D B E q K _ _
            (attempt_single-Tried F Vec project D B E q query K all _ h below)
            (λ q1 s.
              attempt_merged-Tried q1 query K all _ (kept-IsReady F Vec project D B E q q1 s h)
                (kept-All F Vec project D B E q q1 _ s below)))

    pub parallel_search_memory_indices-Tried :
        (q : Q) (query : Vec) (K : ℕ)
        → IsReady Vec D q.shards
        → K ≤ E.memory_L
        → Tried F Vec project D B E q K
            (parallel_search_memory_indices F Vec project D B E arrange arrange_counts q query K)
    unfolding parallel_search_memory_indices
    parallel_search_memory_indices-Tried q query K h small =
        let (occupied, ran, inside) =
          occupied-Inside F Vec project D B E q q.shards.number_of_mini_indexes h.shards in
        subst
          (λ o. Tried F Vec project D B E q K (
            o >>= λ ids.
            search_occupied F Vec project D B E arrange arrange_counts q query K
              (fullest_first F Vec project D B E q ids)))
          (sym ran)
          (search_occupied-Tried q query K (fullest_first F Vec project D B E q occupied) h small
            (fullest_first-All F Vec project D B E (IsInside q) q occupied inside))
