-- ===== src/QvCache.antt =====
-- The state of `QVCache` in include/qvcache/qvcache.h: its shards, both kinds of thresholds, the
-- updates that tasks of the insert pool carry, and the backend, which is a parameter. The hit test
-- and the update choose between the regions and the one threshold per K.
pub mod HitTest
use qvcache.Common.{ℕ, List, [], ◌∷◌, Bool, true, false, if◌then◌else◌, Option, none, some, ◌>>=◌}
use qvcache.Floats.{Floats}
use qvcache.Region.Key.{Coordinate}
use qvcache.Region.Theta
use qvcache.Region.Theta.{PcaUtils}
use qvcache.GlobalTheta
use qvcache.GlobalTheta.{Thresholds}
use qvcache.Cache.{Diskann, Task, Cache, has_k_live_results, get_number_of_vectors}
use qvcache.Cache.Admission.{run_task}

-- What the cache calls of `BackendInterface` to fetch and to write. A fetch that throws is none, and
-- so is an empty vector.
pub record Backend (Vec : Type 0) : Type 1 where
  pub State : Type 0
  pub supports_updates : Bool
  pub insert_vector : ℕ → Option Vec → State → State
  pub remove_vector : ℕ → State → State
  pub fetch_vectors_by_ids : State → List ℕ → Option (List (Option Vec))

module _ (F : Floats) (Vec : Type 0) (project : Vec → List (Coordinate F)) (D : Diskann Vec)
    (B : Backend Vec) where
  open F use {Real}
  open B use {State, fetch_vectors_by_ids}

  -- What a task tells the thresholds after its insertions.
  pub record Update : Type 0 where
    pub query_ptr : Vec
    pub K : ℕ
    pub query_distance : Real

  pub record QvCache : Type 0 where
    pub shards : Cache Vec D
    pub pca_utils : PcaUtils F Vec project
    pub thresholds : Thresholds F
    pub use_regional_theta : Bool
    pub lazy_theta_updates : Bool
    pub parallel : Bool  -- the strategy is PARALLEL and there is a pool
    pub write_theta_discount : Real
    pub region_invalidations : ℕ
    pub updates : List (Option Update)  -- one for each task of the shards
    pub backend : State

  -- The vectors before the first that is missing, which a worker would read out of bounds.
  unfoldable pub present : List (Option Vec) → List Vec
  present [] = []
  present (none ∷ vs) = []
  present (some v ∷ vs) = v ∷ present vs

  unfoldable pub fetched : State → List ℕ → List Vec
  unfolding present
  fetched backend ids = elim (fetch_vectors_by_ids backend ids) [ none ↦ [] | some vs ↦ present vs ]

  unfoldable pub update_theta : QvCache → Update → QvCache
  update_theta q u =
      if q.use_regional_theta
      then record q {
        pca_utils =
            Theta.update_theta F Vec project q.pca_utils u.query_ptr u.K u.query_distance
              q.thresholds.p;
      }
      else record q { thresholds = GlobalTheta.update_theta F q.thresholds u.K u.query_distance }

  unfoldable pub finish : QvCache → Option Update → QvCache
  unfolding update_theta
  finish q none = q
  finish q (some u) = update_theta q u

  unfoldable pub finish_all : List (Option Update) → QvCache → QvCache
  unfolding finish
  finish_all [] q = q
  finish_all (u ∷ us) q = finish_all us (finish q u)

  -- A call that has waited for the pool left no task: then all the updates have been made.
  unfoldable pub settle : List Task → QvCache → QvCache
  unfolding finish_all
  settle [] q = finish_all q.updates (record q { updates = [] })
  settle (task ∷ tasks) q = q

  unfoldable pub catch_up : QvCache → QvCache
  unfolding settle
  catch_up q = settle q.shards.tasks q

  -- The update of the first task, and the others.
  unfoldable pub first_update : List (Option Update) → Option Update
  first_update [] = none
  first_update (u ∷ us) = u

  unfoldable pub later_updates : List (Option Update) → List (Option Update)
  later_updates [] = []
  later_updates (u ∷ us) = us

  -- The first of the tasks: its insertions, then its update.
  unfoldable pub run_first : List Task → QvCache → Option QvCache
  unfolding run_task finish first_update later_updates
  run_first [] q = some q
  run_first (task ∷ tasks) q = do
    shards ← run_task Vec D (fetched q.backend) task (record q.shards { tasks = tasks })
    some (
        finish (record q { shards = shards; updates = later_updates q.updates })
          (first_update q.updates))

  -- A worker takes the first task that waits.
  unfoldable pub work : QvCache → Option QvCache
  unfolding run_first
  work q = run_first q.shards.tasks q

  unfoldable pub is_hit : QvCache → Vec → ℕ → List Real → List ℕ → ℕ → Option (QvCache × Bool)
  is_hit q query K distances tags num_results = do
    live ← has_k_live_results Vec D q.shards K (some tags) num_results
    if live
        then if q.use_regional_theta
          then (do
            (pca, hit) ←
                Theta.is_hit F Vec project q.pca_utils query K (some distances)
                  (get_number_of_vectors Vec D q.shards) q.thresholds.deviation_factor
            some (record q { pca_utils = pca }, hit))
          else (do
            (thresholds, hit) ←
                GlobalTheta.is_hit F q.thresholds (get_number_of_vectors Vec D q.shards) K
                  (some distances)
            some (record q { thresholds = thresholds }, hit))
        else some (q, false)
