-- ===== src/Tests/Search.antt =====
-- Searches of include/qvcache/qvcache.h on small shards.
use mathlib.Core.List.Permᴰ
use qvcache.Common.{
  ℕ, List, [], ◌∷◌, true, false, Option, none, some, put, find, ℕ_discrete, ◌≤◌, ◌≡◌, refl, arith,
  length,
}
use qvcache.QvCache
use qvcache.QvCache.{QvCache, fetched}
use qvcache.Lru.{access, contains, size}
use qvcache.Region.Theta
use qvcache.Cache.{has_k_live_results}
use qvcache.Cache
use qvcache.Lru
use qvcache.Region.Key
use qvcache.Cache.Admission
use qvcache.Cache.Admission.Ready.{IsReady}
use qvcache.Cache.Admission.{ensure_admit_shard}
use qvcache.Merge.{merge_and_rerank_results}
use qvcache.Search
use qvcache.Search.Parallel
use qvcache.Search.{Engines, Answer}
use qvcache.Search.Parallel.{search}
use qvcache.Tests.Tenths.{tenths}
use qvcache.Tests.Region.{project}
use qvcache.Tests.Cache.{counting, three_shards}
use qvcache.Tests.Writes.{id_list, q}

-- Every index has tags 3 and 5, and the backend answers with the ids 2 and 4.
abbrev pub engines : Engines tenths ℕ counting id_list
engines = record {
  memory_L = 10;
  search_with_tags = λ query K l index. (3, 15) ∷ (5, 25) ∷ [];
  search_backend = λ backend query K. some (2 ∷ 4 ∷ [], 15 ∷ 25 ∷ []);
}

abbrev Found : Type 0
Found = QvCache tenths ℕ project counting id_list × Answer tenths

abbrev run : QvCache tenths ℕ project counting id_list → Option Found
run q = search tenths ℕ project counting id_list engines (λ l. l) (λ l. l) q 15 2

-- A first search is a miss, whose distance is learnt.
abbrev flag : Option Found → ℕ
flag none = 2
flag (some (q, a)) = elim a.hit [ true ↦ 1 | false ↦ 0 ]

first : flag (run q) ≡ 0
unfolding search Parallel.parallel_search_memory_indices Parallel.occupied_from
    Parallel.fullest_first Search.attempt_single Parallel.with_results Search.collect
    Search.no_results Search.attempt_merged merge_and_rerank_results find put ℕ_discrete
    Search.answer_if_hit QvCache.is_hit has_k_live_results Theta.is_hit Search.handle_backend_miss
    ensure_admit_shard QvCache.catch_up access contains size Cache.get_number_of_vectors
    Theta.is_uninitialized_theta Theta.touch_theta Theta.lazy_init_region Theta.code_discrete
    Theta.region Key.compute_region_key Key.bucket Admission.reclaim_insert_slots
first = refl

pub three_shards-IsReady : IsReady ℕ counting three_shards
unfolding find ℕ_discrete Lru.tag_at Lru.init
three_shards-IsReady = record {
  tracking = record {
    valid = record { distinct = tt; agree = λ t. refl; bounded = omega arith };
    positive = omega arith;
    tracked = tt;
  };
  queued = tt;
  inside = omega arith;
  shards = refl;
}

pub fetched_all :
    (b ids : List ℕ) → length ids ≤ length (fetched tenths ℕ project counting id_list b ids)
unfolding fetched
fetched_all b [] = omega arith
fetched_all b (id ∷ ids) = omega (arith, fetched_all b ids)
