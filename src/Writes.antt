-- ===== src/Writes.antt =====
-- The writes of `QVCache` in include/qvcache/qvcache.h: `insert` and `remove`, over the shards, the
-- thresholds of the regions and the backend, which is a parameter.
pub mod Removed
pub mod Ready
pub mod Inserted
use qvcache.Common.{
  ℕ, ◌+◌, ◌%◌, ◌^◌, List, [], ◌∷◌, map, Bool, true, false, if◌then◌else◌, Option, none, some, ◌>>=◌,
  put, erase, ℕ_discrete,
}
use qvcache.Floats.{Floats}
use qvcache.Region.Key.{Coordinate}
use qvcache.Region.Theta.{PcaUtils, tighten_theta_for_vector}
use qvcache.Cache.{Diskann, Cache, mem_tag_of, forget_admitted_tag}
use qvcache.QvCache.{Backend, QvCache, fetched, catch_up}
use qvcache.Cache.Admission.{try_admit_data_vector}

module _ (F : Floats) (Vec : Type 0) (project : Vec → List (Coordinate F)) (D : Diskann Vec)
    (B : Backend Vec) where
  open F use {Real}
  open D use {Index, lazy_delete}
  open B use {State, supports_updates, insert_vector, remove_vector, fetch_vectors_by_ids}

  abbrev Q : Type 0
  Q = QvCache F Vec project D B

  unfoldable pub fetch_backend_vector : State → ℕ → Option Vec
  fetch_backend_vector backend id = elim (fetch_vectors_by_ids backend (id ∷ [])) [
    | none ↦ none
    | some vs ↦ elim vs [ [] ↦ none | v ∷ rest ↦ v ]
  ]

  unfoldable pub stale_write_regions : Q → Option Vec → Q
  stale_write_regions q none = q
  stale_write_regions q (some vec) =
      if q.use_regional_theta
      then (let tightened =
            tighten_theta_for_vector F Vec project q.pca_utils (some vec) q.write_theta_discount in
          record q {
            pca_utils = tightened.0;
            region_invalidations = (q.region_invalidations + tightened.1) % 2 ^ 64;
          })
      else q

  unfoldable pub insert : Q → ℕ → Option Vec → Option Q
  unfolding stale_write_regions catch_up
  insert q id vector = do
    let backend = if supports_updates then insert_vector id vector q.backend else q.backend
    let kept = record q.shards { deleted_ids = erase ℕ_discrete id q.shards.deleted_ids }
    (shards, _) ← try_admit_data_vector Vec D (fetched F Vec project D B backend) kept id vector
    let caught = catch_up F Vec project D B (record q { shards = shards; backend = backend })
    some (stale_write_regions caught vector)

  unfoldable pub remove : Q → ℕ → Option Vec → Q
  unfolding stale_write_regions fetch_backend_vector forget_admitted_tag mem_tag_of
  remove q id vector =
      let vec : Option Vec = elim vector [
        | none ↦ fetch_backend_vector q.backend id
        | some v ↦ some v
      ] in
      let stale = stale_write_regions q vec in
      let dead = record stale.shards {
        deleted_ids = put ℕ_discrete id tt stale.shards.deleted_ids;
      } in
      let forgotten = forget_admitted_tag Vec D dead (mem_tag_of Vec D id) in
      record stale {
        shards = record forgotten {
          memory_indices =
              map (λ index. (lazy_delete (mem_tag_of Vec D id) index).0) forgotten.memory_indices;
        };
        backend = if supports_updates then remove_vector id stale.backend else stale.backend;
      }
