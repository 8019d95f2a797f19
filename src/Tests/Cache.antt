-- ===== src/Tests/Cache.antt =====
-- The shards of include/qvcache/qvcache.h over an index that only counts.
use qvcache.Common.{
  ℕ, suc, ◌≤◌, ◌<◌, [], ◌∷◌, true, false, some, find, erase, All, ◌≡◌, ◌⊎◌, inl, inr, refl, arith,
  ℕ_discrete, List, length,
}
use qvcache.Lru
use qvcache.Cache.{
  Diskann, Cache, size_max, has_slots, find_shard_with_capacity, take_victims, has_k_live_results,
}
use qvcache.Cache.Admission.{perform_eviction, ensure_admit_shard}
use qvcache.Cache.Admission.Ready.{IsReady}
use qvcache.Cache.Admission.Room.{Evicts, perform_eviction-Replaced}
use qvcache.Cache.Admission.Ensure.{ensure_admit_shard-IsReady}
use qvcache.Cache.Live.{IsLive, has_k_live_results-IsLive}
use qvcache.Cache.Victims.{Queued, Victims, take_victims-Victims}
use qvcache.Cache.Capacity.{Found, find_shard_with_capacity-Found}

-- The numbers of its active and its lazily deleted points.
abbrev pub counting : Diskann ℕ
counting = record {
  Index = ℕ × ℕ;
  create = λ n. (0, 0);
  active = λ index. index.0;
  lazy_deleted = λ index. index.1;
  insert_point = λ v tag index. ((suc index.0, index.1), 0);
  lazy_delete = λ tag index. (index, 1);
  consolidate = λ index. (index.0, 0);
}

-- Three shards of at most 4 points; id 6 is deleted.
abbrev pub three_shards : Cache ℕ counting
three_shards = record {
  memory_indices = (3, 1) ∷ (2, 0) ∷ (1, 2) ∷ [];
  active_insert_index_id = 0;
  lru_cache = Lru.init 3;
  max_points_per_index = 4;
  number_of_mini_indexes = 3;
  eviction_in_progress = false;
  admit_fifo = 5 ∷ 7 ∷ 8 ∷ [];
  admit_set = (5, tt) ∷ (8, tt) ∷ [];
  deleted_ids = (6, tt) ∷ [];
  point_evictions = 0;
  tasks = [];
}

chosen : find_shard_with_capacity ℕ counting three_shards ≡ 2
unfolding find_shard_with_capacity
chosen = refl

-- The stale entry 7 is passed over.
victims : (take_victims ℕ counting 2 (5 ∷ 7 ∷ 8 ∷ []) three_shards.admit_set).0 ≡ 5 ∷ 8 ∷ []
unfolding take_victims find erase ℕ_discrete
victims = refl

live : has_k_live_results ℕ counting three_shards 2 (some (3 ∷ 5 ∷ [])) 2 ≡ some true
unfolding has_k_live_results find ℕ_discrete
live = refl

-- Tag 7 is that of the deleted id 6.
not_live : has_k_live_results ℕ counting three_shards 2 (some (3 ∷ 7 ∷ [])) 2 ≡ some false
unfolding has_k_live_results find ℕ_discrete
not_live = refl

find_shard_with_capacity-Found_example :
    ((find_shard_with_capacity ℕ counting three_shards ≡ size_max)
      × All (λ index. has_slots ℕ counting 4 index ≡ false) three_shards.memory_indices)
    ⊎ Found ℕ counting 4
        (find_shard_with_capacity ℕ counting three_shards)
        three_shards.memory_indices
unfolding size_max
find_shard_with_capacity-Found_example =
    find_shard_with_capacity-Found ℕ counting three_shards (omega arith)

waiting : Queued (5 ∷ 7 ∷ 8 ∷ []) three_shards.admit_set
unfolding find
waiting t = elim (ℕ_discrete 5 t) [
  | yes e ↦ inr (inl e)
  | no n ↦ elim (ℕ_discrete 8 t) [ yes e ↦ inr (inr (inr (inl e))) | no m ↦ inl (ground arith) ]
]

take_victims-Victims_example :
    let r = take_victims ℕ counting 2 (5 ∷ 7 ∷ 8 ∷ []) three_shards.admit_set in
    Victims 2 three_shards.admit_set r.0 r.1.0 r.1.1
take_victims-Victims_example =
    take_victims-Victims ℕ counting 2 (5 ∷ 7 ∷ 8 ∷ []) three_shards.admit_set waiting

has_k_live_results-IsLive_example :
    ((has_k_live_results ℕ counting three_shards 2 (some (3 ∷ 5 ∷ [])) 2 ≡ some true)
      × (2 ≤ 2)
      × All (IsLive ℕ counting three_shards) (3 ∷ 5 ∷ []))
    ⊎ ((has_k_live_results ℕ counting three_shards 2 (some (3 ∷ 5 ∷ [])) 2 ≡ some false)
        × ((2 < 2) ⊎ (All (IsLive ℕ counting three_shards) (3 ∷ 5 ∷ []) → ⊥)))
has_k_live_results-IsLive_example =
    has_k_live_results-IsLive ℕ counting three_shards 2 (3 ∷ 5 ∷ []) 2 (omega arith)

-- All three shards are full, and shard 0 was used last.
abbrev pub full_shards : Cache ℕ counting
full_shards = record three_shards {
  memory_indices = (4, 0) ∷ (4, 0) ∷ (4, 0) ∷ [];
  lru_cache = record {
    order_list = (0, 2) ∷ (2, 1) ∷ (1, 0) ∷ [];
    tag_map = (0, 2) ∷ (2, 1) ∷ (1, 0) ∷ [];
    next_address = 3;
    max_capacity = 3;
  };
}

abbrev fetch : List ℕ → List ℕ
fetch ids = ids

pub full_shards-IsReady : IsReady ℕ counting full_shards
unfolding find ℕ_discrete Lru.tag_at
full_shards-IsReady = record {
  tracking = record {
    valid = record { distinct = ground arith; agree = λ t. refl; bounded = omega arith };
    positive = omega arith;
    tracked = (omega arith, (omega arith, (omega arith, tt)));
  };
  queued = tt;
  inside = omega arith;
  shards = refl;
}

perform_eviction-Replaced_example :
    (c' : Cache ℕ counting) × (perform_eviction ℕ counting fetch full_shards ≡ some c')
    × Evicts ℕ counting full_shards c'
perform_eviction-Replaced_example =
    perform_eviction-Replaced ℕ counting fetch (λ ids. omega arith) full_shards full_shards-IsReady

ensure_admit_shard-IsReady_example :
    (c' : Cache ℕ counting) × (shard : ℕ) × (ensure_admit_shard ℕ counting fetch full_shards
      ≡ some (c', shard))
    × IsReady ℕ counting c'
    × (shard < length c'.memory_indices)
ensure_admit_shard-IsReady_example =
    ensure_admit_shard-IsReady ℕ counting fetch (λ ids. omega arith) full_shards full_shards-IsReady
