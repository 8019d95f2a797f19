-- ===== src/Cache/Admission.antt =====
-- How the cache of include/qvcache/qvcache.h makes room: tasks of src/insert_thread_pool.cpp that it
-- waits for, the eviction of points and of shards, and the admission of a written vector.
pub mod Ready
pub mod Room
pub mod Ensure
use qvcache.Common.{
  ℕ, zero, suc, ◌+◌, ◌%◌, ◌^◌, ◌==◌, ltb, not, ◌&&◌, List, [], ◌∷◌, map, Bool, true, false,
  if◌then◌else◌, Option, none, some, ◌>>=◌, length, get_elem?, set, ℕ_discrete,
}
use qvcache.Lru.{LruCache, access, contains, get_all_tags, get_lru_tags}
use qvcache.Cache.{
  Diskann, Task, Cache, size_max, shard_has_capacity, shard_has_insert_slots, consolidate_shard,
  consolidate_dirty_shards, find_shard_with_capacity, insert_point_into_shard, take_victims,
  delete_from_shard, mem_tag_of, insert_tagged,
}

module _ (Vec : Type 0) (D : Diskann Vec) where
  open D use {Index, create, active, lazy_deleted, insert_point, lazy_delete, consolidate}

  -- The vectors go in one by one; fewer vectors than ids is a read out of bounds,
  -- and an id with tag 0 an exception.
  unfoldable pub insert_all : List Vec → List ℕ → Index → Option Index
  unfolding mem_tag_of insert_tagged
  insert_all vectors [] index = some index
  insert_all [] (id ∷ ids) index = none
  insert_all (vector ∷ vectors) (id ∷ ids) index = do
    (filled, _) ← insert_tagged Vec D vector (mem_tag_of Vec D id) index
    insert_all vectors ids filled

  -- The backend's `fetch_vectors_by_ids`.
  module _ (fetch_vectors_by_ids : List ℕ → List Vec) where
    -- What a worker does with a task: `memory_index_insert_sync` on its index. The threshold that
    -- it may update afterwards is not part of this state.
    unfoldable pub run_task : Task → Cache Vec D → Option (Cache Vec D)
    unfolding insert_all
    run_task task c = do
      index ← get_elem? c.memory_indices task.target
      filled ← insert_all (fetch_vectors_by_ids task.to_be_inserted) task.to_be_inserted index
      some (record c { memory_indices = set c.memory_indices task.target filled })

    unfoldable pub run_tasks : List Task → Cache Vec D → Option (Cache Vec D)
    unfolding run_task
    run_tasks [] c = some c
    run_tasks (task ∷ tasks) c = do c' ← run_task task c; run_tasks tasks c'

    -- The tasks in the order of the queue, until there are none.
    unfoldable pub wait_idle : Cache Vec D → Option (Cache Vec D)
    unfolding run_tasks
    wait_idle c = run_tasks c.tasks (record c { tasks = [] })

    unfoldable pub reclaim_insert_slots : Cache Vec D → ℕ → Option (Cache Vec D)
    unfolding wait_idle consolidate_shard shard_has_capacity shard_has_insert_slots
    reclaim_insert_slots c i =
        if shard_has_capacity Vec D c i && not (shard_has_insert_slots Vec D c i)
        then (do c' ← wait_idle c; some (consolidate_shard Vec D c' i))
        else some c

    unfoldable pub reclaim_others : ℕ → ℕ → ℕ → Cache Vec D → Option (Cache Vec D)
    unfolding reclaim_insert_slots
    reclaim_others shard i zero c = some c
    reclaim_others shard i (suc n) c = do
      c' ← if i == shard then some c else reclaim_insert_slots c i
      reclaim_others shard (suc i) n c'

    unfoldable pub evict_oldest_points : Cache Vec D → ℕ → Option (Cache Vec D × ℕ)
    unfolding wait_idle take_victims delete_from_shard
    evict_oldest_points c zero = some (c, 0)
    evict_oldest_points c (suc n) = do
      c' ← wait_idle c
      let (victims, (fifo, admitted)) = take_victims Vec D (suc n) c'.admit_fifo c'.admit_set
      some (
        elim victims [
          | [] ↦ record c' { admit_fifo = fifo; admit_set = admitted }
          | tag ∷ rest ↦ record c' {
            admit_fifo = fifo;
            admit_set = admitted;
            memory_indices = map (delete_from_shard Vec D (tag ∷ rest)) c'.memory_indices;
            point_evictions = (c'.point_evictions + length (tag ∷ rest)) % 2 ^ 64;
          }
        ],
        length victims,
      )

    unfoldable pub make_room_for_admit : Cache Vec D → ℕ → Option (Cache Vec D × ℕ)
    unfolding wait_idle consolidate_dirty_shards find_shard_with_capacity size_max
        evict_oldest_points
    make_room_for_admit c n_needed = do
      c' ← wait_idle c
      let clean = consolidate_dirty_shards Vec D c'
      let chosen = find_shard_with_capacity Vec D clean
      if chosen == size_max
          then (do
            (c'', _) ← evict_oldest_points clean n_needed
            some (c'', find_shard_with_capacity Vec D c''))
          else some (clean, chosen)

    -- The last loop of `perform_eviction`: shards that the order has lost come back.
    unfoldable pub readmit : ℕ → ℕ → LruCache ℕ → Option (LruCache ℕ)
    unfolding contains access
    readmit i zero lru = some lru
    readmit i (suc n) lru = do
      lru' ←
          if contains ℕ_discrete lru i
          then some lru
          else (do (moved, _) ← access ℕ_discrete lru i; some moved)
      readmit (suc i) n lru'

    -- A fresh index in a slot that becomes the insert target.
    unfoldable pub replace : Cache Vec D → ℕ → LruCache ℕ → Option (Cache Vec D)
    unfolding readmit
    replace c id lru = do
      _ ← get_elem? c.memory_indices id
      lru' ← readmit 0 c.number_of_mini_indexes lru
      some record c {
        memory_indices = set c.memory_indices id (create c.max_points_per_index);
        active_insert_index_id = id;
        lru_cache = lru';
        eviction_in_progress = false;
      }

    unfoldable pub perform_eviction : Cache Vec D → Option (Cache Vec D)
    unfolding replace get_all_tags get_lru_tags access
    perform_eviction c = elim (get_lru_tags c.lru_cache 1) [
      | [] ↦ elim c.number_of_mini_indexes [
        | zero ↦ none
        | suc n ↦ replace c ((c.active_insert_index_id + 1) % suc n) c.lru_cache
      ]
      | id ∷ ids ↦
          if length (get_all_tags c.lru_cache) == 1
          then some (record c { eviction_in_progress = false })
          else (do (lru, _) ← access ℕ_discrete c.lru_cache id; replace c id lru)
    ]

    -- The end of `ensure_admit_shard`: another shard with room, or else an eviction.
    unfoldable pub find_or_evict : Cache Vec D → Option (Cache Vec D × ℕ)
    find_or_evict c = do
      let spare = find_shard_with_capacity Vec D c
      if ltb spare (length c.memory_indices)
          then (do
            (lru, _) ← access ℕ_discrete c.lru_cache spare
            some (record c { active_insert_index_id = spare; lru_cache = lru }, spare))
          else (do
            idle ← wait_idle c
            evicted ←
                if idle.eviction_in_progress
                then some idle
                else perform_eviction (record idle { eviction_in_progress = true })
            some (evicted, evicted.active_insert_index_id))

    unfoldable pub ensure_admit_shard : Cache Vec D → Option (Cache Vec D × ℕ)
    ensure_admit_shard c = do
      let shard = c.active_insert_index_id
      c' ← reclaim_insert_slots c shard
      if shard_has_insert_slots Vec D c' shard
          then some (c', shard)
          else (do c'' ← reclaim_others shard 0 (length c'.memory_indices) c'; find_or_evict c'')

    -- The insert into the shard found, if there is one.
    unfoldable pub admit_to : Cache Vec D → ℕ → ℕ → Vec → Option (Cache Vec D × Bool)
    unfolding size_max
    admit_to c shard id vector = if shard == size_max then some (c, false) else (do
      filled ← insert_point_into_shard Vec D c shard id (some vector)
      (lru, _) ← access ℕ_discrete filled.lru_cache shard
      some (record filled { lru_cache = lru }, true))

    -- A written vector: none is the null pointer.
    unfoldable pub try_admit_data_vector :
        Cache Vec D → ℕ → Option Vec → Option (Cache Vec D × Bool)
    try_admit_data_vector c id none = some (c, false)
    try_admit_data_vector c id (some vector) = do
      c' ← reclaim_insert_slots c c.active_insert_index_id
      admit_to c'
          (if shard_has_insert_slots Vec D c' c.active_insert_index_id
            then c.active_insert_index_id
            else find_shard_with_capacity Vec D c')
          id vector
