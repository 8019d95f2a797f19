-- ===== src/Calls.antt =====
-- The construction of `QVCache` in include/qvcache/qvcache.h, and the calls of its users one after
-- the other. Training and loading of the projection and the files are left out. Between the calls
-- the workers of the insert pool run any number of its tasks, each to its end; in a call a task runs
-- when the call waits for the pool.
pub mod Written
pub mod Constructed
pub mod Served
use qvcache.Common.{
  ℕ, zero, suc, ◌/◌, ◌&&◌, ltb, min, List, [], ◌∷◌, Bool, true, false, if◌then◌else◌, Option, none,
  some, ◌>>=◌, ℕ_discrete,
}
use qvcache.Floats.{Floats}
use qvcache.Region.Key.{Coordinate}
use qvcache.Region.Theta
use qvcache.Region.Theta.{PcaUtils, uninitialized_theta, set_write_l1_radius}
use qvcache.GlobalTheta.{Thresholds}
use qvcache.Lru
use qvcache.Lru.{LruCache, access}
use qvcache.Cache.{Diskann, Cache}
use qvcache.InsertPool.{copies}
use qvcache.Merge.{MergedResult}
use qvcache.QvCache.{Backend, QvCache, work}
use qvcache.Writes.{insert, remove}
use qvcache.Search.{Engines}
use qvcache.Search.Parallel.{search}

-- Every shard is tracked from the start.
unfoldable pub access_from : ℕ → ℕ → LruCache ℕ → Option (LruCache ℕ)
access_from i zero lru = some lru
access_from i (suc n) lru = do (lru', _) ← access ℕ_discrete lru i; access_from (suc i) n lru'

module _ (Vec : Type 0) (D : Diskann Vec) where
  open D use {create}

  -- With no shards the capacity of one is a division by zero.
  unfoldable pub construct_shards : ℕ → ℕ → Option (Cache Vec D)
  unfolding access_from
  construct_shards zero memory_index_max_points = none
  construct_shards (suc n) memory_index_max_points = do
    lru ← access_from 0 (suc n) (Lru.init (suc n))
    some (record {
      memory_indices = copies (suc n) (create (memory_index_max_points / suc n));
      active_insert_index_id = 0;
      lru_cache = lru;
      max_points_per_index = memory_index_max_points / suc n;
      number_of_mini_indexes = suc n;
      eviction_in_progress = false;
      admit_fifo = [];
      admit_set = [];
      deleted_ids = [];
      point_evictions = 0;
      tasks = [];
    })

-- The arguments of the constructor that the model has a use for.
pub record Config (F : Floats) : Type 0 where
  pub p : F.Real
  pub deviation_factor : F.Real
  pub memory_index_max_points : ℕ
  pub use_regional_theta : Bool
  pub pca_dim : ℕ
  pub buckets_per_dim : ℕ
  pub max_regions : ℕ
  pub lazy_theta_updates : Bool
  pub number_of_mini_indexes : ℕ
  pub max_search_threads : ℕ
  pub is_cosine : Bool  -- metric == diskann::COSINE
  pub is_parallel : Bool  -- search_strategy == SearchStrategy::PARALLEL
  pub write_theta_discount : F.Real  -- a constant of the class, 0.80

module _ (F : Floats) (Vec : Type 0) (project : Vec → List (Coordinate F)) (D : Diskann Vec)
    (B : Backend Vec) where
  abbrev pub Q : Type 0
  Q = QvCache F Vec project D B

  -- Without regions there is no PCAUtils, and an empty one stands for it.
  unfoldable pub construct_pca : Config F → Option (PcaUtils F Vec project)
  unfolding set_write_l1_radius
  construct_pca k =
      if k.use_regional_theta
      then (do
        u ← Theta.init F Vec project k.pca_dim k.buckets_per_dim k.is_cosine k.max_regions
        some (set_write_l1_radius F Vec project u 1))
      else Theta.init F Vec project 0 0 k.is_cosine 0

  unfoldable pub construct_thresholds : Config F → Thresholds F
  unfolding uninitialized_theta
  construct_thresholds k =
      let init_value = uninitialized_theta F k.is_cosine in
      record {
        is_cosine = k.is_cosine;
        theta_map =
            if k.use_regional_theta
            then []
            else (1, init_value) ∷ (5, init_value) ∷ (10, init_value) ∷ (100, init_value) ∷ [];
        p = k.p;
        deviation_factor = k.deviation_factor;
        global_theta_discount = F.one_real;
      }

  -- The search pool is there if it has two threads.
  unfoldable pub construct : Config F → B.State → Option Q
  unfolding construct_shards construct_pca construct_thresholds
  construct k backend = do
    shards ← construct_shards Vec D k.number_of_mini_indexes k.memory_index_max_points
    pca_utils ← construct_pca k
    some (record {
      shards = shards;
      pca_utils = pca_utils;
      thresholds = construct_thresholds k;
      use_regional_theta = k.use_regional_theta;
      lazy_theta_updates = k.lazy_theta_updates;
      parallel =
          k.is_parallel
          && ltb 1 k.number_of_mini_indexes
          && ltb 1 (min k.max_search_threads k.number_of_mini_indexes);
      write_theta_discount = k.write_theta_discount;
      region_invalidations = 0;
      updates = [];
      backend = backend;
    })

  pub data Call : Type 0 where
    searched : Vec → ℕ → Call
    inserted : ℕ → Option Vec → Call
    removed : ℕ → Option Vec → Call
    worked : Call  -- no call, but a task of the pool that a worker takes and runs

  module _ (E : Engines F Vec D B) (arrange : List (MergedResult F Vec) → List (MergedResult F Vec))
      (arrange_counts : List (ℕ × ℕ) → List (ℕ × ℕ)) where
    unfoldable pub call : Q → Call → Option Q
    unfolding search insert remove work
    call q (searched query K) = do
      (q', _) ← search F Vec project D B E arrange arrange_counts q query K
      some q'
    call q (inserted id vector) = insert F Vec project D B q id vector
    call q worked = work F Vec project D B q
    call q (removed id vector) = some (remove F Vec project D B q id vector)

    unfoldable pub run_calls : List Call → Q → Option Q
    unfolding call
    run_calls [] q = some q
    run_calls (c ∷ cs) q = do q' ← call q c; run_calls cs q'
