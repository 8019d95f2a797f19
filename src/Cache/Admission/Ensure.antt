-- ===== src/Cache/Admission/Ensure.antt =====
-- `ensure_admit_shard` of include/qvcache/qvcache.h runs to its end and finds a shard.
use qvcache.Common.{
  ℕ, ◌≤◌, ◌<◌, ltb, List, true, false, some, length, get_elem?-none, ◌≡◌, refl, sym, ◌∙◌, arith,
  Bool-cases, dec_lt, ltb→lt, inl, inr,
}
use mathlib.Core.Bool.{true≢false}
use qvcache.Lru.{LruCache}
use qvcache.Cache.{Diskann, Cache, shard_has_insert_slots, find_shard_with_capacity}
use qvcache.Cache.Admission.{find_or_evict, ensure_admit_shard}
use qvcache.Cache.Admission.Ready.{
  IsTracking, IsReady, access-IsTracking, wait_idle-Runs, reclaim_insert_slots-Runs,
  reclaim_others-Runs,
}
use qvcache.Cache.Admission.Room.{perform_eviction-Replaced}

module _ (Vec : Type 0) (D : Diskann Vec) where
  module _ (fetch : List ℕ → List Vec)
      (fetch-length : (ids : List ℕ) → length ids ≤ length (fetch ids)) where
    pub shard_has_insert_slots-inside :
        (c : Cache Vec D) (i : ℕ)
        → shard_has_insert_slots Vec D c i ≡ true
        → i < length c.memory_indices
    unfolding shard_has_insert_slots
    shard_has_insert_slots-inside c i e = elim (dec_lt i (length c.memory_indices)) [
      | yes l ↦ l
      | no n ↦ absurd (true≢false (sym e ∙ beyond n))
    ]
      where
        beyond : ¬ (i < length c.memory_indices) → shard_has_insert_slots Vec D c i ≡ false
        beyond n = rw (get_elem?-none c.memory_indices i (omega arith), shard_has_insert_slots) refl

    moved-IsReady :
        (c : Cache Vec D) (id : ℕ) (lru : LruCache ℕ)
        → IsReady Vec D c
        → id < length c.memory_indices
        → IsTracking (length c.memory_indices) lru
        → IsReady Vec D (record c { active_insert_index_id = id; lru_cache = lru })
    moved-IsReady c id lru h l t = record {
      tracking = t;
      queued = h.queued;
      inside = l;
      shards = h.shards;
    }

    -- The rest of `ensure_admit_shard`, after the reclaiming of slots.
    find_or_evict-IsReady :
        (c : Cache Vec D)
        → IsReady Vec D c
        → (c' : Cache Vec D) × (shard : ℕ) × (find_or_evict Vec D fetch c ≡ some (c', shard))
          × IsReady Vec D c'
          × (shard < length c'.memory_indices)
    unfolding find_or_evict
    find_or_evict-IsReady c h =
        let spare = find_shard_with_capacity Vec D c in
        elim (Bool-cases (ltb spare (length c.memory_indices))) [
          | inl l ↦
              let there : spare < length c.memory_indices = ltb→lt spare _ l in
              let (lru, b, ran, tracking) =
                access-IsTracking (length c.memory_indices) c.lru_cache spare h.tracking there in
              (
                record c { active_insert_index_id = spare; lru_cache = lru },
                spare,
                rw (l, find_or_evict, ran) refl,
                moved-IsReady c spare lru h there tracking,
                there,
              )
          | inr l ↦
              let (idle, ran, ready) = wait_idle-Runs Vec D fetch fetch-length c h in
              elim (Bool-cases idle.eviction_in_progress) [
                | inl p ↦ (
                  idle,
                  idle.active_insert_index_id,
                  rw (l, find_or_evict, ran, p) refl,
                  ready,
                  ready.inside,
                )
                | inr p ↦
                    let (c', ran', done) =
                      perform_eviction-Replaced Vec D fetch fetch-length
                        (record idle { eviction_in_progress = true })
                        record {
                          tracking = ready.tracking;
                          queued = ready.queued;
                          inside = ready.inside;
                          shards = ready.shards;
                        } in
                    let after : IsReady Vec D c' = elim done [ inl d ↦ d.1 | inr d ↦ d.1.ready ] in
                    (
                      c',
                      c'.active_insert_index_id,
                      rw (l, find_or_evict, ran, p, ran') refl,
                      after,
                      after.inside,
                    )
              ]
        ]

    -- The search for a shard to admit to never faults: from a ready state it returns a shard that
    -- exists and leaves a ready state. The backend returns a vector for each id.
    pub ensure_admit_shard-IsReady :
        (c : Cache Vec D)
        → IsReady Vec D c
        → (c' : Cache Vec D) × (shard : ℕ) × (ensure_admit_shard Vec D fetch c ≡ some (c', shard))
          × IsReady Vec D c'
          × (shard < length c'.memory_indices)
    unfolding ensure_admit_shard
    ensure_admit_shard-IsReady c h =
        let shard = c.active_insert_index_id in
        let (c', ran, ready) = reclaim_insert_slots-Runs Vec D fetch fetch-length c shard h in
        elim (Bool-cases (shard_has_insert_slots Vec D c' shard)) [
          | inl e ↦ (
            c',
            shard,
            rw (ran, ensure_admit_shard, e) refl,
            ready,
            shard_has_insert_slots-inside c' shard e,
          )
          | inr e ↦
              let (c'', ran', ready') =
                reclaim_others-Runs Vec D fetch fetch-length shard 0 (length c'.memory_indices) c'
                  ready in
              let (c3, spare, ran3, ready3, there) = find_or_evict-IsReady c'' ready' in
              (c3, spare, rw (ran, ensure_admit_shard, e, ran') ran3, ready3, there)
        ]
