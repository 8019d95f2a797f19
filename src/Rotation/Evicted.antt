-- ===== src/Rotation/Evicted.antt =====
-- What the eviction of one shard in include/qvcache/qvcache.h leaves.
use qvcache.Common.{ℕ, Option, none, List, [], some, get_elem?, ◌≡◌}
use qvcache.Floats.{Floats}
use qvcache.Region.Key.{Coordinate}
use qvcache.Cache.{Diskann, Cache}
use qvcache.Cache.Admission.{run_tasks}
use qvcache.Cache.Admission.Ready.{IsReady}
use qvcache.QvCache.{Backend, QvCache, fetched, finish_all}

module _ (F : Floats) (Vec : Type 0) (project : Vec → List (Coordinate F)) (D : Diskann Vec)
    (B : Backend Vec) where
  abbrev Q : Type 0
  Q = QvCache F Vec project D B

  -- A fresh shard, with the number given, is the insert target.
  pub record Rotated (q' : Q) (id : ℕ) : Type 0 where
    pub ready : IsReady Vec D q'.shards
    pub target : q'.shards.active_insert_index_id ≡ id
    pub fresh :
        get_elem? q'.shards.memory_indices id ≡ some (D.create q'.shards.max_points_per_index)

  -- The call faults, or keeps the order of use and what waits.
  abbrev KeepsQueue : Cache Vec D → Option (Cache Vec D) → Type 0
  KeepsQueue c none = Unit
  KeepsQueue c (some c') = (c'.lru_cache ≡ c.lru_cache) × (c'.tasks ≡ c.tasks)

  -- What the wait for the tasks makes of a cache: they run in the order of the queue, and then the
  -- updates that they carry are made.
  abbrev pub Waited : Q → Q → Type 0
  Waited q idle =
      (c : Cache Vec D) × (run_tasks Vec D (fetched F Vec project D B q.backend) q.shards.tasks
          (record q.shards { tasks = [] })
        ≡ some c)
      × (idle ≡ finish_all F Vec project D B q.updates (record q { shards = c; updates = [] }))
      × (idle.shards.tasks ≡ [])
      × (idle.shards.lru_cache ≡ q.shards.lru_cache)
