-- ===== src/Writes/Inserted.antt =====
-- An insertion of include/qvcache/qvcache.h keeps what is deleted but for its own id.
use qvcache.Common.{
  ℕ, ◌||◌, ◌==◌, List, [], ◌∷◌, Bool, not, ◌&&◌, if◌then◌else◌, Option, none, some, get_elem?, ◌≡◌,
  refl, ◌∙◌, subst, arith, Bool-cases, Option-cases, inl, inr, ℕ_discrete,
}
use qvcache.Lru.{access}
use qvcache.Cache.{
  size_max, find_shard_with_capacity, Diskann, Task, Cache, TagSet, consolidate_shard,
  insert_point_into_shard, insert_tagged, is_deleted_id, has_slots, mem_tag_of, shard_has_capacity,
  shard_has_insert_slots,
}
use qvcache.Cache.Admission.{
  insert_all, run_task, run_tasks, wait_idle, reclaim_insert_slots, admit_to, try_admit_data_vector,
}

module _ (Vec : Type 0) (D : Diskann Vec) where
  -- The call faults or keeps the deleted ids.
  abbrev pub Keeps : TagSet → Option (Cache Vec D) → Type 0
  Keeps ids none = Unit
  Keeps ids (some c) = c.deleted_ids ≡ ids

  abbrev pub KeepsAdmit : TagSet → Option (Cache Vec D × Bool) → Type 0
  KeepsAdmit ids none = Unit
  KeepsAdmit ids (some r) = r.0.deleted_ids ≡ ids

  insert_point_into_shard-Keeps :
      (c : Cache Vec D) (shard id : ℕ) (vector : Option Vec)
      → Keeps c.deleted_ids (insert_point_into_shard Vec D c shard id vector)
  unfolding insert_point_into_shard insert_tagged
  insert_point_into_shard-Keeps c shard id none = refl
  insert_point_into_shard-Keeps c shard id (some v) =
      elim (Option-cases (get_elem? c.memory_indices shard)) [
        | inl e ↦ rw (e, insert_point_into_shard) refl
        | inr (index, e) ↦
            elim (Bool-cases
              (is_deleted_id Vec D c id || not (has_slots Vec D c.max_points_per_index index))) [
                | inl b ↦ rw (e, insert_point_into_shard, b) refl
                | inr b ↦ elim (Bool-cases (mem_tag_of Vec D id == 0)) [
                  | inl z ↦ rw (e, insert_point_into_shard, b, z) tt
                  | inr z ↦ rw (e, insert_point_into_shard, b, z) (ground arith)
                ]
              ]
      ]

  consolidate_shard-tombstones :
      (c : Cache Vec D) (i : ℕ) → (consolidate_shard Vec D c i).deleted_ids ≡ c.deleted_ids
  unfolding consolidate_shard
  consolidate_shard-tombstones c i = ground arith

  module _ (fetch : List ℕ → List Vec) where
    run_task-Keeps :
        (task : Task) (c : Cache Vec D) → Keeps c.deleted_ids (run_task Vec D fetch task c)
    unfolding run_task
    run_task-Keeps task c = elim (Option-cases (get_elem? c.memory_indices task.target)) [
      | inl e ↦ rw (e, run_task) tt
      | inr (index, e) ↦
          elim (Option-cases
            (insert_all Vec D (fetch task.to_be_inserted) task.to_be_inserted index)) [
              | inl f ↦ rw (e, run_task, f) tt
              | inr (filled, f) ↦ rw (e, run_task, f) refl
            ]
    ]

    run_tasks-Keeps :
        (tasks : List Task) (c : Cache Vec D) → Keeps c.deleted_ids (run_tasks Vec D fetch tasks c)
    unfolding run_tasks
    run_tasks-Keeps [] c = refl
    run_tasks-Keeps (task ∷ tasks) c = elim (Option-cases (run_task Vec D fetch task c)) [
      | inl e ↦ rw (e, run_tasks) tt
      | inr (c', e) ↦
          rw (e, run_tasks)
            (subst (λ ids. Keeps ids (run_tasks Vec D fetch tasks c'))
              (subst (Keeps c.deleted_ids) e (run_task-Keeps task c)) (run_tasks-Keeps tasks c'))
    ]

    reclaim_insert_slots-Keeps :
        (c : Cache Vec D) (i : ℕ) → Keeps c.deleted_ids (reclaim_insert_slots Vec D fetch c i)
    unfolding reclaim_insert_slots
    reclaim_insert_slots-Keeps c i =
        elim (Bool-cases (shard_has_capacity Vec D c i && not (shard_has_insert_slots Vec D c i))) [
          | inl e ↦ elim (Option-cases (wait_idle Vec D fetch c)) [
            | inl f ↦ rw (e, reclaim_insert_slots, f) tt
            | inr (c', f) ↦
                rw (e, reclaim_insert_slots, f)
                  (consolidate_shard-tombstones c' i
                    ∙ subst (Keeps c.deleted_ids) f (run_tasks-Keeps c.tasks _))
          ]
          | inr e ↦ rw (e, reclaim_insert_slots) refl
        ]

    admit_to-KeepsAdmit :
        (c : Cache Vec D) (shard id : ℕ) (v : Vec)
        → KeepsAdmit c.deleted_ids (admit_to Vec D fetch c shard id v)
    unfolding admit_to
    admit_to-KeepsAdmit c shard id v = elim (Bool-cases (shard == size_max)) [
      | inl e ↦ rw (e, admit_to) refl
      | inr e ↦ elim (Option-cases (insert_point_into_shard Vec D c shard id (some v))) [
        | inl g ↦ rw (e, admit_to, g) tt
        | inr (filled, g) ↦ elim (Option-cases (access ℕ_discrete filled.lru_cache shard)) [
          | inl f ↦ rw (e, admit_to, g, f) tt
          | inr (lru, f) ↦
              rw (e, admit_to, g, f)
                (subst (Keeps c.deleted_ids) g (insert_point_into_shard-Keeps c shard id (some v)))
        ]
      ]
    ]

    pub try_admit_data_vector-KeepsAdmit :
        (c : Cache Vec D) (id : ℕ) (vector : Option Vec)
        → KeepsAdmit c.deleted_ids (try_admit_data_vector Vec D fetch c id vector)
    unfolding try_admit_data_vector
    try_admit_data_vector-KeepsAdmit c id none = refl
    try_admit_data_vector-KeepsAdmit c id (some v) =
        elim (Option-cases (reclaim_insert_slots Vec D fetch c c.active_insert_index_id)) [
          | inl e ↦ rw (e, try_admit_data_vector) tt
          | inr (c', e) ↦
              let same : c'.deleted_ids ≡ c.deleted_ids =
                subst (Keeps c.deleted_ids) e
                  (reclaim_insert_slots-Keeps c c.active_insert_index_id) in
              let shard : ℕ =
                if shard_has_insert_slots Vec D c' c.active_insert_index_id
                then c.active_insert_index_id
                else find_shard_with_capacity Vec D c' in
              rw (e, try_admit_data_vector)
                (subst (λ ids. KeepsAdmit ids (admit_to Vec D fetch c' shard id v)) same
                  (admit_to-KeepsAdmit c' shard id v))
        ]
