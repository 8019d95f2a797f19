-- ===== src/Tests/Recall.antt =====
-- The recall of include/qvcache/utils.h for two queries and two neighbours.
use qvcache.Common.{
  ℕ, zero, suc, ◌<◌, ◌≤◌, List, [], ◌∷◌, true, false, none, some, ◌>>=◌, get_elem?, ◌≡◌, ◌⊎◌, refl,
  arith,
}
use qvcache.Search.{is_in}
use qvcache.Recall.{slice, query_matches, calculate_recall, calculate_hit_recall}
use qvcache.Recall.Matches.{query_matches-le}
use qvcache.Recall.Moved.{query_matches-moved}
use qvcache.Recall.Hits.{all_hits, no_hits}
use qvcache.Tests.Tenths.{tenths}

-- Three neighbours a query, of which two are asked for.
abbrev groundtruth : List ℕ
groundtruth = 4 ∷ 7 ∷ 9 ∷ 1 ∷ 2 ∷ 3 ∷ []

-- The first query found both, the second one of them.
abbrev tags : List ℕ
tags = 8 ∷ 5 ∷ 2 ∷ 9 ∷ []

half_recall :
    calculate_recall tenths 2 groundtruth tags 2 3
    ≡ some (record { recall_all = 7; K = 2; low_recall_queries = 0; very_low_recall_queries = 0 })
unfolding calculate_recall query_matches is_in
half_recall = refl

query_matches-le_example :
    (query_matches 2 groundtruth tags 3 1 ≡ none)
    ⊎ ((m : ℕ) × (query_matches 2 groundtruth tags 3 1 ≡ some m) × (m ≤ 2))
query_matches-le_example = query_matches-le 2 groundtruth tags 3 1

query_matches-moved_example : query_matches 2 groundtruth (5 ∷ 8 ∷ []) 3 0 ≡ some 2
unfolding slice
query_matches-moved_example =
    query_matches-moved 2 groundtruth (5 ∷ 8 ∷ []) (4 ∷ 7 ∷ []) 3 0 refl refl
      (((λ e. absurd (omega (arith, e))), tt), (tt, tt)) (omega arith, (omega arith, tt))

both_hits : (j : ℕ) → j < 2 → get_elem? (true ∷ true ∷ []) j ≡ some true
both_hits zero h = refl
both_hits (suc zero) h = refl
both_hits (suc (suc j)) h = absurd (omega (arith, h))

all_hits_example : calculate_hit_recall tenths 2 groundtruth tags (true ∷ true ∷ []) 2 3 ≡ (
    calculate_recall tenths 2 groundtruth tags 2 3 >>= λ m.
    some (record { recall_cache_hits = m.recall_all; cache_hit_count = 2 }))
all_hits_example = all_hits tenths 2 groundtruth tags (true ∷ true ∷ []) 2 3 (omega arith) both_hits

both_misses : (j : ℕ) → j < 2 → get_elem? (false ∷ false ∷ []) j ≡ some false
both_misses zero h = refl
both_misses (suc zero) h = refl
both_misses (suc (suc j)) h = absurd (omega (arith, h))

no_hits_example :
    calculate_hit_recall tenths 2 groundtruth [] (false ∷ false ∷ []) 2 3
    ≡ some (record { recall_cache_hits = 0; cache_hit_count = 0 })
no_hits_example = no_hits tenths 2 groundtruth [] (false ∷ false ∷ []) 2 3 both_misses
