-- ===== src/Tests/Merge.antt =====
-- The merge of include/qvcache/qvcache.h on two small indexes.
use mathlib.Core.List.Permᴰ
use qvcache.Common.{ℕ, ◌≤◌, List, [], ◌∷◌, map, length, ◌≡◌, refl, arith, find, put, ℕ_discrete}
use qvcache.Merge.{MergedResult, AllResults, merge_and_rerank_results}
use qvcache.Merge.Best.{read_indexes}
use qvcache.Merge.Result.{Merged, merge_and_rerank_results-Merged}
use qvcache.Tests.Tenths.{tenths}

-- Index 0 has tags 4 and 7, index 1 has 7 and 9; tag 7 is nearer in index 1.
abbrev two_indexes : AllResults tenths ℕ
two_indexes = record {
  all_tags = (4 ∷ 7 ∷ []) ∷ (7 ∷ 9 ∷ []) ∷ [];
  all_dists = (30 ∷ 20 ∷ []) ∷ (10 ∷ 40 ∷ []) ∷ [];
  all_res = [] ∷ (1 ∷ 2 ∷ []) ∷ [];
}

abbrev same : List (MergedResult tenths ℕ) → List (MergedResult tenths ℕ)
same l = l

abbrev same_counts : List (ℕ × ℕ) → List (ℕ × ℕ)
same_counts l = l

abbrev merged : List (MergedResult tenths ℕ)
merged = (merge_and_rerank_results tenths ℕ same same_counts two_indexes (0 ∷ 1 ∷ []) 2).0

-- The two nearest tags, tag 7 with the distance of index 1.
merged-tags : map (λ r. r.tag) merged ≡ 7 ∷ 4 ∷ []
unfolding merge_and_rerank_results find put ℕ_discrete
merged-tags = refl

merge_and_rerank_results-Merged_example :
    (length merged ≤ 2)
    × Merged tenths ℕ (read_indexes tenths ℕ two_indexes (0 ∷ 1 ∷ []) []) 2 merged
merge_and_rerank_results-Merged_example =
    merge_and_rerank_results-Merged tenths ℕ (λ a b h. ground arith) (λ a b c h k. ground arith)
      same (λ l. Permᴰ.refl l) same_counts two_indexes (0 ∷ 1 ∷ []) 2
