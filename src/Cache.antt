-- ===== src/Cache.antt =====
-- The shards of the cache, which point is admitted to which, and the answers that count as live:
-- `QVCache` of include/qvcache/qvcache.h and the tasks of src/insert_thread_pool.cpp. An index is one
-- of the DiskANN library, by the operations that the cache calls. A fault is none.

pub mod Admission
pub mod Live
pub mod Capacity
pub mod Victims
use qvcache.Common.{
  ℕ, zero, suc, ◌+◌, ◌-◌, ◌*◌, ◌/◌, ◌%◌, ◌^◌, ◌==◌, ltb, leb, not, ◌&&◌, ◌||◌, List, [], ◌∷◌, ◌++◌,
  map, foldl, Bool, true, false, if◌then◌else◌, Option, none, some, ◌>>=◌, find, put, erase, length,
  get_elem?, set, take, back, ℕ_discrete,
}
use qvcache.Lru.{LruCache, access, contains, get_all_tags, get_lru_tags}

-- `std::numeric_limits<size_t>::max()` and the same for a tag.
unfoldable pub size_max : ℕ
size_max = 2 ^ 64 - 1

unfoldable pub tag_max : ℕ
tag_max = 2 ^ 32 - 1

-- A `std::unordered_set` of tags.
abbrev pub TagSet : Type 0
TagSet = List (ℕ × Unit {0})

-- What the cache calls of `diskann::AbstractIndex`: a result of 0 is success. An insert takes a tag
-- other than 0, the tag that DiskANN throws on.
pub record Diskann (Vec : Type 0) : Type 1 where
  pub Index : Type 0
  pub create : ℕ → Index
  pub active : Index → ℕ
  pub lazy_deleted : Index → ℕ
  pub insert_point : Vec → ℕ → Index → Index × ℕ
  pub lazy_delete : ℕ → Index → Index × ℕ
  pub consolidate : Index → Index

-- A task of the insert pool: the slot of its index, and the ids to fetch and insert.
pub record Task : Type 0 where
  pub target : ℕ
  pub to_be_inserted : List ℕ

module _ (Vec : Type 0) (D : Diskann Vec) where
  open D use {Index, create, active, lazy_deleted, insert_point, lazy_delete, consolidate}

  pub record Cache : Type 0 where
    pub memory_indices : List Index
    pub active_insert_index_id : ℕ
    pub lru_cache : LruCache ℕ
    pub max_points_per_index : ℕ
    pub number_of_mini_indexes : ℕ
    pub eviction_in_progress : Bool
    pub admit_fifo : List ℕ
    pub admit_set : TagSet
    pub deleted_ids : TagSet
    pub point_evictions : ℕ
    pub tasks : List Task

  unfoldable pub shard_has_capacity : Cache → ℕ → Bool
  shard_has_capacity c i = elim (get_elem? c.memory_indices i) [
    | none ↦ false
    | some index ↦ ltb (active index) c.max_points_per_index
  ]

  -- Room for an insert: lazily deleted points still take a slot.
  unfoldable pub has_slots : ℕ → Index → Bool
  has_slots max_points index = ltb (active index + lazy_deleted index) max_points

  unfoldable pub shard_has_insert_slots : Cache → ℕ → Bool
  unfolding has_slots
  shard_has_insert_slots c i = elim (get_elem? c.memory_indices i) [
    | none ↦ false
    | some index ↦ has_slots c.max_points_per_index index
  ]

  unfoldable pub note_admitted_tag : Cache → ℕ → Cache
  note_admitted_tag c mem_tag = elim (find ℕ_discrete mem_tag c.admit_set) [
    | some u ↦ c
    | none ↦ record c {
      admit_set = put ℕ_discrete mem_tag tt c.admit_set;
      admit_fifo = c.admit_fifo ++ mem_tag ∷ [];
    }
  ]

  unfoldable pub forget_admitted_tag : Cache → ℕ → Cache
  forget_admitted_tag c mem_tag = record c { admit_set = erase ℕ_discrete mem_tag c.admit_set }

  unfoldable pub consolidated : Index → Index
  consolidated index = if lazy_deleted index == 0 then index else consolidate index

  unfoldable pub consolidate_shard : Cache → ℕ → Cache
  unfolding consolidated
  consolidate_shard c i = elim (get_elem? c.memory_indices i) [
    | none ↦ c
    | some index ↦ record c { memory_indices = set c.memory_indices i (consolidated index) }
  ]

  unfoldable pub consolidate_dirty_shards : Cache → Cache
  unfolding consolidated
  consolidate_dirty_shards c = record c { memory_indices = map consolidated c.memory_indices }

  -- The loop over the shards, from shard i on.
  unfoldable pub find_loop : ℕ → ℕ → List Index → ℕ → ℕ → ℕ
  unfolding has_slots
  find_loop max_points i [] best best_load = best
  find_loop max_points i (index ∷ rest) best best_load = elim (has_slots max_points index) [
    | false ↦ find_loop max_points (suc i) rest best best_load
    | true ↦ elim (ltb (active index) best_load) [
      | true ↦ find_loop max_points (suc i) rest i (active index)
      | false ↦ find_loop max_points (suc i) rest best best_load
    ]
  ]

  unfoldable pub find_shard_with_capacity : Cache → ℕ
  unfolding find_loop size_max
  find_shard_with_capacity c = find_loop c.max_points_per_index 0 c.memory_indices size_max size_max

  unfoldable pub is_deleted_id : Cache → ℕ → Bool
  is_deleted_id c id = elim (find ℕ_discrete id c.deleted_ids) [ none ↦ false | some u ↦ true ]

  -- The tag of an id, in 32 bits.
  unfoldable pub mem_tag_of : ℕ → ℕ
  mem_tag_of id = (1 + id) % 2 ^ 32

  -- The insertion of a point under a tag, which throws on tag 0: what `1 + id` is for the greatest id.
  unfoldable pub insert_tagged : Vec → ℕ → Index → Option (Index × ℕ)
  insert_tagged vec tag index = if tag == 0 then none else some (insert_point vec tag index)

  unfoldable pub insert_point_into_shard : Cache → ℕ → ℕ → Option Vec → Option Cache
  unfolding is_deleted_id has_slots mem_tag_of note_admitted_tag insert_tagged
  insert_point_into_shard c shard id none = some c
  insert_point_into_shard c shard id (some vec) = elim (get_elem? c.memory_indices shard) [
    | none ↦ some c
    | some index ↦
        if is_deleted_id c id || not (has_slots c.max_points_per_index index) then some c else (do
          (filled, result) ← insert_tagged vec (mem_tag_of id) index
          let c' = record c { memory_indices = set c.memory_indices shard filled }
          some (if result == 0 then note_admitted_tag c' (mem_tag_of id) else c'))
  ]

  -- The first loop of `evict_oldest_points`: the victims, and what the queue and the set become.
  unfoldable pub take_victims : ℕ → List ℕ → TagSet → List ℕ × (List ℕ × TagSet)
  take_victims zero fifo admitted = ([], (fifo, admitted))
  take_victims (suc n) [] admitted = ([], ([], admitted))
  take_victims (suc n) (tag ∷ fifo) admitted = elim (find ℕ_discrete tag admitted) [
    | none ↦ take_victims (suc n) fifo admitted
    | some u ↦
        let rest = take_victims n fifo (erase ℕ_discrete tag admitted) in (tag ∷ rest.0, rest.1)
  ]

  -- The second loop: each victim is deleted from a shard, which is consolidated if it had one.
  unfoldable pub delete_victims : List ℕ → Index → Bool → Index × Bool
  delete_victims [] index dirty = (index, dirty)
  delete_victims (tag ∷ victims) index dirty =
      let tried = lazy_delete tag index in delete_victims victims tried.0 (dirty || tried.1 == 0)

  unfoldable pub delete_from_shard : List ℕ → Index → Index
  unfolding delete_victims consolidated
  delete_from_shard victims index =
      let tried = delete_victims victims index false in
      if tried.1 then consolidated tried.0 else tried.0

  -- `has_k_live_results`, on the tags that a search has written.
  unfoldable pub live_loop : Cache → ℕ → List ℕ → Option Bool
  unfolding is_deleted_id tag_max
  live_loop c zero tags = some true
  live_loop c (suc k) [] = none
  live_loop c (suc k) (tag ∷ tags) =
      if tag == 0 || tag == tag_max
      then some false
      else if is_deleted_id c (tag - 1)
      then some false
      else live_loop c k tags

  unfoldable pub has_k_live_results : Cache → ℕ → Option (List ℕ) → ℕ → Option Bool
  unfolding live_loop
  has_k_live_results c K none num_results = some (leb K num_results)
  has_k_live_results c K (some tags) num_results =
      if ltb num_results K then some false else live_loop c K tags

  -- The shards' points, `get_number_of_vectors_in_memory_index`.
  unfoldable pub get_number_of_vectors : Cache → ℕ
  get_number_of_vectors c = foldl (λ total index. total + active index) 0 c.memory_indices
