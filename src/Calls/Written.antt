-- ===== src/Calls/Written.antt =====
-- Insertions and removals of include/qvcache/qvcache.h on a ready cache.
use qvcache.Common.{
  ℕ, ◌≤◌, List, map, erase, put, if◌then◌else◌, Option, none, some, length, length-map, ◌≡◌, refl,
  sym, ◌∙◌, subst, Bool-cases, inl, inr, ℕ_discrete,
}
use qvcache.Floats.{Floats}
use qvcache.Region.Key.{Coordinate}
use qvcache.Cache.{Diskann, Cache, mem_tag_of, forget_admitted_tag}
use qvcache.Cache.Admission.Ready.{IsReady}
use qvcache.QvCache.{Backend, QvCache, fetched, catch_up}
use qvcache.QvCache.HitTest.{catch_up-SameShards}
use qvcache.Writes.{stale_write_regions, insert, remove}
use qvcache.Writes.Ready.{IsInsertable, moved-IsReady, try_admit_data_vector-IsReady}

module _ (F : Floats) (Vec : Type 0) (project : Vec → List (Coordinate F)) (D : Diskann Vec)
    (B : Backend Vec) where
  abbrev Q : Type 0
  Q = QvCache F Vec project D B

  stale-shards :
      (q : Q) (v : Option Vec) → (stale_write_regions F Vec project D B q v).shards ≡ q.shards
  unfolding stale_write_regions
  stale-shards q none = refl
  stale-shards q (some v) = elim (Bool-cases q.use_regional_theta) [
    | inl e ↦ rw (e, stale_write_regions) refl
    | inr e ↦ rw (e, stale_write_regions) refl
  ]

  module _
      (fetch : (b : B.State) (ids : List ℕ)
        → length ids ≤ length (fetched F Vec project D B b ids)) where
    pub insert-IsReady :
        (q : Q) (id : ℕ) (v : Option Vec)
        → IsReady Vec D q.shards
        → IsInsertable id v
        → (q' : Q) × (insert F Vec project D B q id v ≡ some q') × IsReady Vec D q'.shards
    unfolding insert
    insert-IsReady q id v h tag =
        let backend = if B.supports_updates then B.insert_vector id v q.backend else q.backend in
        let kept = record q.shards { deleted_ids = erase ℕ_discrete id q.shards.deleted_ids } in
        let (shards, b, ran, ready) =
          try_admit_data_vector-IsReady Vec D (fetched F Vec project D B backend) (fetch backend)
            kept id v
            record {
              tracking = h.tracking;
              queued = h.queued;
              inside = h.inside;
              shards = h.shards;
            }
            tag in
        let admitted = record q { shards = shards; backend = backend } in
        let caught = catch_up F Vec project D B admitted in
        (
          stale_write_regions F Vec project D B caught v,
          rw (ran, insert) refl,
          subst (IsReady Vec D)
              (sym
                (stale-shards caught v ∙ (catch_up-SameShards F Vec project D B admitted).shards))
              ready,
        )

  buried-IsReady :
      (c : Cache Vec D) (id : ℕ)
      → IsReady Vec D c
      → let forgotten =
          forget_admitted_tag Vec D
            (record c { deleted_ids = put ℕ_discrete id tt c.deleted_ids })
            (mem_tag_of Vec D id) in
        IsReady Vec D (record forgotten {
          memory_indices =
              map (λ index. (D.lazy_delete (mem_tag_of Vec D id) index).0) forgotten.memory_indices;
        })
  unfolding forget_admitted_tag
  buried-IsReady c id h =
      moved-IsReady Vec D c _
        (record {
          order = refl;
          tasks = refl;
          target = refl;
          number = refl;
          size =
              length-map (λ index. (D.lazy_delete (mem_tag_of Vec D id) index).0) c.memory_indices;
        })
        h

  pub remove-IsReady :
      (q : Q) (id : ℕ) (v : Option Vec)
      → IsReady Vec D q.shards
      → IsReady Vec D (remove F Vec project D B q id v).shards
  unfolding remove
  remove-IsReady q id v h = buried-IsReady _ id (subst (IsReady Vec D) (sym (stale-shards q _)) h)
