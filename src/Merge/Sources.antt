-- ===== src/Merge/Sources.antt =====
-- The indexes that contribute to a merge of include/qvcache/qvcache.h are among those it was given.
use mathlib.Core.List.{Permᴰ}
use qvcache.Common.{
  All-take, ℕ, min, List, [], ◌∷◌, map, Option, none, some, find, All-put, length, get_elem?, All,
  Bool-cases, Option-cases, inl, inr, ℕ_discrete,
}
use qvcache.Floats.{Floats}
use qvcache.Merge.{
  MergedResult, BestMap, AllResults, absorb, scan_results, scan_indexes, closer, fewer, ranked,
  count_sources, merge_and_rerank_results,
}
use qvcache.Merge.Order.{All-Permᴰ, sort-Permᴰ}

module _ (F : Floats) (Ptr : Type 0) (P : ℕ → Type 0) where
  open F use {Real, lt_real}

  abbrev Res : Type 0
  Res = MergedResult F Ptr

  abbrev Sourced : BestMap F Ptr → Type 0
  Sourced = All (λ e. P e.1.source_index_id)

  absorb-Sourced :
      (r : Res) (best : BestMap F Ptr)
      → P r.source_index_id
      → Sourced best
      → Sourced (absorb F Ptr r best)
  unfolding absorb
  absorb-Sourced r best p h = elim (Option-cases (find ℕ_discrete r.tag best)) [
    | inl e ↦ rw (e, absorb) (All-put ℕ_discrete _ r.tag r best p h)
    | inr (b, e) ↦ elim (Bool-cases (lt_real r.distance b.distance)) [
      | inl c ↦ rw (e, absorb, c) (All-put ℕ_discrete _ r.tag r best p h)
      | inr c ↦ rw (e, absorb, c) h
    ]
  ]

  scan_results-Sourced :
      (i : ℕ) (ts : List ℕ) (ds : List Real) (ps : List Ptr) (best : BestMap F Ptr)
      → P i
      → Sourced best
      → Sourced (scan_results F Ptr i ts ds ps best)
  unfolding scan_results
  scan_results-Sourced i [] ds ps best p h = h
  scan_results-Sourced i (t ∷ ts) [] ps best p h = h
  scan_results-Sourced i (t ∷ ts) (d ∷ ds) [] best p h =
      scan_results-Sourced i ts ds [] _ p (absorb-Sourced _ best p h)
  scan_results-Sourced i (t ∷ ts) (d ∷ ds) (q ∷ ps) best p h =
      scan_results-Sourced i ts ds ps _ p (absorb-Sourced _ best p h)

  scan_index-Sourced :
      (i : ℕ) (ts : Option (List ℕ)) (ds : Option (List Real)) (ps : Option (List Ptr))
      (best : BestMap F Ptr)
      → P i
      → Sourced best
      → Sourced (elim ts [
        | none ↦ best
        | some tags ↦ elim ds [
          | none ↦ best
          | some dists ↦ elim ps [
            | none ↦ best
            | some res ↦ scan_results F Ptr i tags dists res best
          ]
        ]
      ])
  scan_index-Sourced i none ds ps best p h = h
  scan_index-Sourced i (some ts) none ps best p h = h
  scan_index-Sourced i (some ts) (some ds) none best p h = h
  scan_index-Sourced i (some ts) (some ds) (some ps) best p h =
      scan_results-Sourced i ts ds ps best p h

  scan_indexes-Sourced :
      (all : AllResults F Ptr) (ids : List ℕ) (best : BestMap F Ptr)
      → All P ids
      → Sourced best
      → Sourced (scan_indexes F Ptr all ids best)
  unfolding scan_indexes
  scan_indexes-Sourced all [] best p h = h
  scan_indexes-Sourced all (i ∷ ids) best p h = scan_indexes-Sourced all ids _ p.1 (
      scan_index-Sourced i (get_elem? all.all_tags i) (get_elem? all.all_dists i)
        (get_elem? all.all_res i) best p.0 h)

  values-Sourced :
      (best : BestMap F Ptr)
      → Sourced best
      → All (λ (r : Res). P r.source_index_id) (map (λ e. e.1) best)
  values-Sourced [] h = tt
  values-Sourced (e ∷ best) h = (h.0, values-Sourced best h.1)

  abbrev Counted : List (ℕ × ℕ) → Type 0
  Counted = All (λ c. P c.0)

  count_sources-Counted :
      (rs : List Res) (counts : List (ℕ × ℕ))
      → All (λ r. P r.source_index_id) rs
      → Counted counts
      → Counted (count_sources F Ptr rs counts)
  unfolding count_sources
  count_sources-Counted [] counts h c = c
  count_sources-Counted (r ∷ rs) counts h c =
      count_sources-Counted rs _ h.1 (All-put ℕ_discrete _ r.source_index_id _ counts h.0 c)

  keys-Counted : (counts : List (ℕ × ℕ)) → Counted counts → All P (map (λ c. c.0) counts)
  keys-Counted [] h = tt
  keys-Counted (c ∷ counts) h = (h.0, keys-Counted counts h.1)

  pub merge_and_rerank_results-All :
      (arrange : List Res → List Res) (arrange_counts : List (ℕ × ℕ) → List (ℕ × ℕ))
      (all : AllResults F Ptr) (ids : List ℕ) (K : ℕ)
      → ((l : List Res) → Permᴰ l (arrange l))
      → ((l : List (ℕ × ℕ)) → Permᴰ l (arrange_counts l))
      → All P ids
      → All P (merge_and_rerank_results F Ptr arrange arrange_counts all ids K).1
  unfolding merge_and_rerank_results ranked
  merge_and_rerank_results-All arrange arrange_counts all ids K perm perm_counts h =
      let candidates = ranked F Ptr arrange arrange_counts all ids in
      let sources : All (λ (r : Res). P r.source_index_id) candidates =
        All-Permᴰ _ (Permᴰ.trans (perm _) (sort-Permᴰ (closer F Ptr) _))
          (values-Sourced _ (scan_indexes-Sourced all ids [] h tt)) in
      keys-Counted _ (
        All-Permᴰ _ (Permᴰ.trans (perm_counts _) (sort-Permᴰ (fewer F Ptr) _)) (
          count_sources-Counted _ [] (All-take _ (min K (length candidates)) candidates sources)
            tt))
