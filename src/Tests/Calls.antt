-- ===== src/Tests/Calls.antt =====
-- Calls on a cache of include/qvcache/qvcache.h that has just been constructed.
use mathlib.Core.List.Permᴰ
use qvcache.Common.{ℕ, List, [], ◌∷◌, true, false, none, some}
use qvcache.InsertPool.{copies}
use qvcache.Search.{Engines}
use qvcache.Calls.{Config, Call, searched, inserted, removed, worked}
use qvcache.Tests.Tenths.{tenths}
use qvcache.Tests.Region.{project}
use qvcache.Tests.Cache.{counting}
use qvcache.Tests.Writes.{id_list}

-- Two shards of two points, with regions.
abbrev config : Config tenths
config = record {
  p = 5;
  deviation_factor = 1;
  memory_index_max_points = 4;
  use_regional_theta = true;
  pca_dim = 1;
  buckets_per_dim = 4;
  max_regions = 10;
  lazy_theta_updates = true;
  number_of_mini_indexes = 2;
  max_search_threads = 32;
  is_cosine = false;
  is_parallel = true;
  write_theta_discount = 8;
}

-- The backend answers with id 2, as often as it is asked for.
abbrev answering : Engines tenths ℕ counting id_list
answering = record {
  memory_L = 100;
  search_with_tags = λ query K l index. (3, 15) ∷ [];
  search_backend = λ backend query K. some (copies K 2, copies K 15);
}

-- A miss, a vector for id 2, its removal, a task that a worker runs, and two more searches.
abbrev calls : List (Call tenths ℕ project counting id_list)
calls =
    searched 15 2
    ∷ inserted 2 (some 15)
    ∷ removed 2 none
    ∷ worked
    ∷ searched 15 1
    ∷ searched 30 5
    ∷ []
