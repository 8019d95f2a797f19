-- ===== src/Calls/Served.antt =====
-- Every call on a cache of include/qvcache/qvcache.h is served, from the construction on.
use qvcache.Common.{ℕ, ◌≤◌, List, Option, some, length, ◌≡◌}
use qvcache.Floats.{Floats}
use qvcache.Region.Key.{Coordinate}
use qvcache.Region.Theta
use qvcache.Cache.{Diskann}
use qvcache.Cache.Admission.Ready.{IsReady}
use qvcache.QvCache.{Backend, QvCache, fetched}
use qvcache.Writes.Ready.{IsInsertable}
use qvcache.Search.{Engines}
use qvcache.Calls.{Call, searched, inserted, removed, worked}

module _ (F : Floats) (Vec : Type 0) (project : Vec → List (Coordinate F)) (D : Diskann Vec)
    (B : Backend Vec) (E : Engines F Vec D B) where
  abbrev Q : Type 0
  Q = QvCache F Vec project D B

  -- In each state the backend fetches every vector that it is asked for, and answers each query with
  -- K tags and K distances at least.
  pub record Reliable : Type 0 where
    pub fetch : (b : B.State) (ids : List ℕ) → length ids ≤ length (fetched F Vec project D B b ids)
    pub answer :
        (b : B.State) (query : Vec) (K : ℕ)
        → (tags : List ℕ) × (dists : List F.Real) × (E.search_backend b query K
            ≡ some (tags, dists))
          × (K ≤ length tags)
          × (K ≤ length dists)

  -- A call that DiskANN does not refuse: a search asks for no more than an index lists, and a vector
  -- is inserted under an id whose tag is not 0.
  abbrev pub IsServable : Call F Vec project D B → Type 0
  IsServable (searched query K) = K ≤ E.memory_L
  IsServable (inserted id v) = IsInsertable id v
  IsServable (removed id v) = Unit
  IsServable worked = Unit

  -- A call that returns, with a cache that is ready.
  abbrev pub Serves : Option Q → Type 0
  Serves r = (q : Q) × (r ≡ some q) × IsReady Vec D q.shards
