-- ===== src/Search/Outcome.antt =====
-- What `search` of include/qvcache/qvcache.h comes to, by either strategy.
use qvcache.Common.{ℕ, ◌≤◌, List, Option, some, length, ◌≡◌, ◌⊎◌}
use qvcache.Floats.{Floats}
use qvcache.Region.Key.{Coordinate}
use qvcache.Cache.{Diskann, Cache}
use qvcache.Cache.Admission.Ready.{IsReady}
use qvcache.QvCache.{Backend, QvCache, fetched}
use qvcache.QvCache.HitTest.{SameShards}
use qvcache.Search.{Engines, Answer}
use qvcache.Search.Tried.{Hit, Tried}
use qvcache.Search.Missed.{Missed}

module _ (F : Floats) (Vec : Type 0) (project : Vec → List (Coordinate F)) (D : Diskann Vec)
    (B : Backend Vec) (E : Engines F Vec D B) where
  open F use {Real}

  abbrev Q : Type 0
  Q = QvCache F Vec project D B

  abbrev Same : Q → Q → Type 0
  Same = SameShards F Vec project D B

  -- A call that returns, with a hit or with what the backend gave.
  abbrev pub Ended : Q → ℕ → List ℕ → List Real → Option (Q × Answer F) → Type 0
  Ended q K tags dists r =
      (q' : Q) × (a : Answer F) × (r ≡ some (q', a))
      × (Hit F Vec project D B E q K q' a ⊎ Missed F Vec project D B E q K tags dists q' a)

  -- What a call needs of the state and of the backend's answer.
  pub record Served (q : Q) (query : Vec) (K : ℕ) (tags : List ℕ) (dists : List Real) : Type 0 where
    pub ready : IsReady Vec D q.shards
    pub fetch : (ids : List ℕ) → length ids ≤ length (fetched F Vec project D B q.backend ids)
    pub answered : E.search_backend q.backend query K ≡ some (tags, dists)
    pub enough_tags : K ≤ length tags
    pub enough_distances : K ≤ length dists
    pub listed : K ≤ E.memory_L
