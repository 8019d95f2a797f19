-- ===== src/Rotation/Admitted.antt =====
-- What the admission of a miss in include/qvcache/qvcache.h that makes room for it leaves.
use qvcache.Common.{
  ℕ, zero, suc, ◌+◌, ◌%◌, ◌^◌, ◌≤◌, ◌<◌, ◌==◌, ltb, ltb→lt, List, [], ◌∷◌, ◌++◌, map, take, true,
  false, Option, none, some, length, length-map, ◌≡◌, refl, sym, subst, Bool-cases, List-cases, ◌⊎◌,
  inl, inr,
}
use qvcache.Floats.{Floats}
use qvcache.Region.Key.{Coordinate}
use qvcache.Cache.{
  Diskann, Cache, size_max, consolidated, consolidate_dirty_shards, find_shard_with_capacity,
  shard_has_insert_slots, take_victims, delete_from_shard,
}
use qvcache.Cache.Admission.{evict_oldest_points, make_room_for_admit}
use qvcache.Cache.Admission.Ready.{IsReady, with_indices, wait_idle-Runs, reclaim_insert_slots-Runs}
use qvcache.Writes.Ready.{moved-IsReady}
use qvcache.QvCache.{Backend, QvCache, fetched, catch_up}
use qvcache.QvCache.HitTest.{catch_up-SameShards}
use qvcache.Search.{Engines, submit}
use qvcache.Search.Missed.{live_ids, live_ids-IsTagged, admissible-live_ids, submitted-IsReady}
use qvcache.Rotation.{assign_write_shard, no_ids, admit_miss_neighbors}

module _ (Vec : Type 0) (D : Diskann Vec) (fetch : List ℕ → List Vec)
    (fetch-length : (ids : List ℕ) → length ids ≤ length (fetch ids)) where
  consolidate_dirty_shards-IsReady :
      (c : Cache Vec D) → IsReady Vec D c → IsReady Vec D (consolidate_dirty_shards Vec D c)
  unfolding consolidate_dirty_shards
  consolidate_dirty_shards-IsReady c h =
      with_indices Vec D c (map (consolidated Vec D) c.memory_indices)
        (length-map (consolidated Vec D) c.memory_indices) h

  -- The call returns, whatever it evicts.
  abbrev Evicting : Option (Cache Vec D × ℕ) → Type 0
  Evicting r = (c' : Cache Vec D) × (n : ℕ) × (r ≡ some (c', n)) × IsReady Vec D c'

  evict_oldest_points-IsReady :
      (c : Cache Vec D) (n : ℕ) → IsReady Vec D c → Evicting (evict_oldest_points Vec D fetch c n)
  unfolding evict_oldest_points
  evict_oldest_points-IsReady c zero h = (c, 0, refl, h)
  evict_oldest_points-IsReady c (suc n) h =
      let (idle, ran, ready) = wait_idle-Runs Vec D fetch fetch-length c h in
      let taken = take_victims Vec D (suc n) idle.admit_fifo idle.admit_set in
      elim (List-cases taken.0) [
        | inl e ↦ (
          record idle { admit_fifo = taken.1.0; admit_set = taken.1.1 },
          0,
          rw (ran, evict_oldest_points, e) refl,
          record {
            tracking = ready.tracking;
            queued = ready.queued;
            inside = ready.inside;
            shards = ready.shards;
          },
        )
        | inr (tag, rest, e) ↦ (
          record idle {
            admit_fifo = taken.1.0;
            admit_set = taken.1.1;
            memory_indices = map (delete_from_shard Vec D (tag ∷ rest)) idle.memory_indices;
            point_evictions = (idle.point_evictions + length (tag ∷ rest)) % 2 ^ 64;
          },
          length (tag ∷ rest),
          rw (ran, evict_oldest_points, e) refl,
          moved-IsReady Vec D idle _
              (record {
                order = refl;
                tasks = refl;
                target = refl;
                number = refl;
                size = length-map (delete_from_shard Vec D (tag ∷ rest)) idle.memory_indices;
              })
              ready,
        )
      ]

  make_room_for_admit-IsReady :
      (c : Cache Vec D) (n : ℕ) → IsReady Vec D c → Evicting (make_room_for_admit Vec D fetch c n)
  unfolding make_room_for_admit
  make_room_for_admit-IsReady c n h =
      let (idle, ran, ready) = wait_idle-Runs Vec D fetch fetch-length c h in
      let clean = consolidate_dirty_shards Vec D idle in
      let ready' = consolidate_dirty_shards-IsReady idle ready in
      elim (Bool-cases (find_shard_with_capacity Vec D clean == size_max)) [
        | inr e ↦ (
          clean,
          find_shard_with_capacity Vec D clean,
          rw (ran, make_room_for_admit, e) refl,
          ready',
        )
        | inl e ↦
            let (c', k, ran', done) = evict_oldest_points-IsReady clean n ready' in
            (
              c',
              find_shard_with_capacity Vec D c',
              rw (ran, make_room_for_admit, e, ran') refl,
              done,
            )
      ]

module _ (F : Floats) (Vec : Type 0) (project : Vec → List (Coordinate F)) (D : Diskann Vec)
    (B : Backend Vec) (E : Engines F Vec D B) where
  abbrev Q : Type 0
  Q = QvCache F Vec project D B

  caught-IsReady :
      (q : Q) (c : Cache Vec D)
      → IsReady Vec D c
      → IsReady Vec D (catch_up F Vec project D B (record q { shards = c })).shards
  caught-IsReady q c h =
      subst (IsReady Vec D)
        (sym (catch_up-SameShards F Vec project D B (record q { shards = c })).shards) h

  assign_write_shard-IsReady :
      (q : Q) (n : ℕ)
      → IsReady Vec D q.shards
      → ((ids : List ℕ) → length ids ≤ length (fetched F Vec project D B q.backend ids))
      → (r : Q) × (shard : ℕ) × (assign_write_shard F Vec project D B q n ≡ some (r, shard))
        × IsReady Vec D r.shards
  unfolding assign_write_shard
  assign_write_shard-IsReady q n h fetch =
      let f = fetched F Vec project D B q.backend in
      let shard = q.shards.active_insert_index_id in
      let (c, ran, ready) = reclaim_insert_slots-Runs Vec D f fetch q.shards shard h in
      elim (Bool-cases (shard_has_insert_slots Vec D c shard)) [
        | inl e ↦ (
          catch_up F Vec project D B (record q { shards = c }),
          shard,
          rw (ran, assign_write_shard, e) refl,
          caught-IsReady q c ready,
        )
        | inr e ↦
            let (roomy, chosen, ran', ready') =
              make_room_for_admit-IsReady Vec D f fetch c n ready in
            (
              catch_up F Vec project D B (record q { shards = roomy }),
              chosen,
              rw (ran, assign_write_shard, e, ran') refl,
              caught-IsReady q roomy ready',
            )
      ]

  -- The shard has a free slot, and the ids that are not deleted wait for it.
  pub record Waits (q r q' : Q) (shard n : ℕ) (tags : List ℕ) : Type 0 where
    pub inside : shard < length r.shards.memory_indices
    pub slots : shard_has_insert_slots Vec D r.shards shard ≡ true
    pub some_id :
        no_ids F Vec project D B (live_ids F Vec project D B E q.shards (take n tags)) ≡ false
    pub queued :
        q'.shards.tasks
        ≡ r.shards.tasks
          ++ record {
            target = shard;
            to_be_inserted = live_ids F Vec project D B E q.shards (take n tags);
          }
            ∷ []

  submitted-Waits :
      (q r : Q) (shard n : ℕ) (tags : List ℕ)
      → IsReady Vec D r.shards
      → shard < length r.shards.memory_indices
      → shard_has_insert_slots Vec D r.shards shard ≡ true
      → no_ids F Vec project D B (live_ids F Vec project D B E q.shards (take n tags)) ≡ false
      → let q' =
          submit F Vec project D B E r shard
            (live_ids F Vec project D B E q.shards (take n tags))
            none in
        IsReady Vec D q'.shards × Waits q r q' shard n tags
  unfolding submit
  submitted-Waits q r shard n tags ready l e i = (
    submitted-IsReady F Vec project D B E r.shards shard _ ready l
        (live_ids-IsTagged F Vec project D B E q.shards (take n tags)),
    record { inside = l; slots = e; some_id = i; queued = refl },
  )

  -- From a ready cache, with n tags to read, the admission of a miss returns and leaves a ready cache.
  -- Beyond what the choice of the shard did, it either does nothing, or the ids that are not deleted,
  -- one at least, wait for that shard, which exists and has a free slot. The backend returns a vector
  -- for each id.
  pub admit_miss_neighbors-Waits :
      (q : Q) (n : ℕ) (tags : List ℕ)
      → IsReady Vec D q.shards
      → ((ids : List ℕ) → length ids ≤ length (fetched F Vec project D B q.backend ids))
      → n ≤ length tags
      → (r q' : Q) × (shard : ℕ) × (assign_write_shard F Vec project D B q n ≡ some (r, shard))
        × (admit_miss_neighbors F Vec project D B E q n tags ≡ some q')
        × IsReady Vec D q'.shards
        × ((q' ≡ r) ⊎ Waits q r q' shard n tags)
  unfolding admit_miss_neighbors
  admit_miss_neighbors-Waits q n tags h fetch enough =
      let (r, shard, ran, ready) = assign_write_shard-IsReady q n h fetch in
      let found = admissible-live_ids F Vec project D B E q.shards n tags enough in
      let ids = live_ids F Vec project D B E q.shards (take n tags) in
      elim (Bool-cases (ltb shard (length r.shards.memory_indices))) [
        | inr l ↦ (r, r, shard, ran, rw (found, admit_miss_neighbors, ran, l) refl, ready, inl refl)
        | inl l ↦ elim (Bool-cases (shard_has_insert_slots Vec D r.shards shard)) [
          | inr e ↦
              (r, r, shard, ran, rw (found, admit_miss_neighbors, ran, l, e) refl, ready, inl refl)
          | inl e ↦ elim (Bool-cases (no_ids F Vec project D B ids)) [
            | inl i ↦ (
              r,
              r,
              shard,
              ran,
              rw (found, admit_miss_neighbors, ran, l, e, i) refl,
              ready,
              inl refl,
            )
            | inr i ↦
                let (ready', waits) =
                  submitted-Waits q r shard n tags ready (ltb→lt shard _ l) e i in
                (
                  r,
                  submit F Vec project D B E r shard ids none,
                  shard,
                  ran,
                  rw (found, admit_miss_neighbors, ran, l, e, i) refl,
                  ready',
                  inr waits,
                )
          ]
        ]
      ]
