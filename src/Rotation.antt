-- ===== src/Rotation.antt =====
-- Methods of `QVCache` in include/qvcache/qvcache.h that no other method calls: the rotation of one
-- shard, and the admission of a miss that makes room by the eviction of points.
pub mod Evicted
pub mod Admitted
use qvcache.Common.{
  ℕ, ltb, not, ◌&&◌, List, [], ◌∷◌, set, Bool, true, false, if◌then◌else◌, Option, none, some,
  ◌>>=◌, length, get_elem?, ℕ_discrete,
}
use qvcache.Floats.{Floats}
use qvcache.Region.Key.{Coordinate}
use qvcache.Lru.{LruCache, access, get_lru_tags}
use qvcache.GlobalTheta.{reset_global_theta_map}
use qvcache.Cache.{Diskann, Cache, size_max, shard_has_insert_slots}
use qvcache.Cache.Admission.{wait_idle, reclaim_insert_slots, make_room_for_admit}
use qvcache.QvCache.{Backend, QvCache, fetched, catch_up}
use qvcache.Search.{Engines, admissible, submit}

module _ (F : Floats) (Vec : Type 0) (project : Vec → List (Coordinate F)) (D : Diskann Vec)
    (B : Backend Vec) where
  abbrev pub Q : Type 0
  Q = QvCache F Vec project D B

  -- Whether `perform_eviction` is started in the background.
  unfoldable pub trigger_eviction : Q → Q × Bool
  trigger_eviction q =
      if q.shards.eviction_in_progress
      then (q, false)
      else (record q { shards = record q.shards { eviction_in_progress = true } }, true)

  unfoldable pub invalidate_thetas_for_shard : Q → ℕ → Q
  unfolding reset_global_theta_map
  invalidate_thetas_for_shard q shard =
      if q.use_regional_theta
      then q
      else record q { thresholds = reset_global_theta_map F q.thresholds }

  unfoldable pub replace_shard : Q → ℕ → Option Q
  unfolding invalidate_thetas_for_shard
  replace_shard q id = do
    _ ← get_elem? q.shards.memory_indices id
    let r = invalidate_thetas_for_shard q id
    some (record r {
      shards = record r.shards {
        memory_indices = set r.shards.memory_indices id (D.create r.shards.max_points_per_index);
      };
    })

  -- The least recently used shard, if one is tracked, becomes a fresh insert target.
  unfoldable pub evict_tracked : Q → List ℕ → Option (Q × ℕ)
  unfolding size_max replace_shard
  evict_tracked q [] = some (q, size_max)
  evict_tracked q (id ∷ ids) = do
    r ← replace_shard q id
    (lru, _) ← access ℕ_discrete r.shards.lru_cache id
    some
        (record r { shards = record r.shards { lru_cache = lru; active_insert_index_id = id } }, id)

  unfoldable pub evict_one_shard_sync : Q → Option (Q × ℕ)
  unfolding evict_tracked
  evict_one_shard_sync q = do
    idle ← wait_idle Vec D (fetched F Vec project D B q.backend) q.shards
    let caught = catch_up F Vec project D B (record q { shards = idle })
    evict_tracked caught (get_lru_tags caught.shards.lru_cache 1)

  unfoldable pub assign_write_shard : Q → ℕ → Option (Q × ℕ)
  assign_write_shard q n_admit = do
    let fetch = fetched F Vec project D B q.backend
    let shard = q.shards.active_insert_index_id
    c ← reclaim_insert_slots Vec D fetch q.shards shard
    if shard_has_insert_slots Vec D c shard
        then some (catch_up F Vec project D B (record q { shards = c }), shard)
        else (do
          (roomy, chosen) ← make_room_for_admit Vec D fetch c n_admit
          some (catch_up F Vec project D B (record q { shards = roomy }), chosen))

  unfoldable pub no_ids : List ℕ → Bool
  no_ids [] = true
  no_ids (id ∷ ids) = false

  unfoldable pub admit_miss_neighbors : Engines F Vec D B → Q → ℕ → List ℕ → Option Q
  unfolding assign_write_shard no_ids
  admit_miss_neighbors E q n_admit tags = do
    ids ← admissible F Vec project D B E q.shards n_admit tags
    (r, shard) ← assign_write_shard q n_admit
    some (
        if ltb shard (length r.shards.memory_indices)
          && shard_has_insert_slots Vec D r.shards shard
          && not (no_ids ids)
        then submit F Vec project D B E r shard ids none
        else r)
