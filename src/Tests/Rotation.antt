-- ===== src/Tests/Rotation.antt =====
-- The rotation of a shard and the admission of a miss in include/qvcache/qvcache.h on three shards.
use qvcache.Common.{ℕ, [], ◌∷◌, some, ◌≡◌, ◌⊎◌, arith}
use qvcache.Cache.Admission.Ready.{IsReady}
use qvcache.QvCache.{QvCache}
use qvcache.Rotation.{assign_write_shard, admit_miss_neighbors}
use qvcache.Rotation.Admitted.{Waits, admit_miss_neighbors-Waits}
use qvcache.Tests.Tenths.{tenths}
use qvcache.Tests.Region.{project}
use qvcache.Tests.Cache.{counting, full_shards, full_shards-IsReady}
use qvcache.Tests.Writes.{id_list, q}
use qvcache.Tests.Search.{engines, fetched_all}

abbrev Q : Type 0
Q = QvCache tenths ℕ project counting id_list

-- All three shards are tracked and full.
abbrev full : Q
full = record q { shards = full_shards }

admit_miss_neighbors-Waits_example :
    (r q' : Q) × (shard : ℕ) × (assign_write_shard tenths ℕ project counting id_list full 2
      ≡ some (r, shard))
    × (admit_miss_neighbors tenths ℕ project counting id_list engines full 2 (2 ∷ 4 ∷ []) ≡ some q')
    × IsReady ℕ counting q'.shards
    × ((q' ≡ r) ⊎ Waits tenths ℕ project counting id_list engines full r q' shard 2 (2 ∷ 4 ∷ []))
admit_miss_neighbors-Waits_example =
    admit_miss_neighbors-Waits tenths ℕ project counting id_list engines full 2 (2 ∷ 4 ∷ [])
      full_shards-IsReady (fetched_all []) (omega arith)
