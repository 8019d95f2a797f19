-- ===== src/Cache/Admission/Ready.antt =====
-- The states in which the calls of include/qvcache/qvcache.h that make room run to their end.
use qvcache.Common.{
  ℕ, length-set, All-take, zero, suc, ◌+◌, ◌%◌, ◌^◌, false, ◌≤◌, ◌<◌, List, [], ◌∷◌, Bool, not,
  ◌&&◌, Option, some, length, get_elem?, get_elem?-some, set, All, ◌≡◌, refl, sym, ◌∙◌, subst,
  arith, Bool-cases, Option-cases, inl, inr, ℕ_discrete, ◌==◌,
}
use qvcache.Lru.{LruCache, order, access, contains}
use qvcache.Lru.Invariant.{IsValid}
use qvcache.Lru.Order.{remove, All-remove, access-Accessed}
use qvcache.Cache.{
  Diskann, Task, Cache, mem_tag_of, insert_tagged, consolidated, consolidate_shard,
  shard_has_capacity, shard_has_insert_slots,
}
use qvcache.Cache.Admission.{
  insert_all, run_task, run_tasks, wait_idle, reclaim_insert_slots, reclaim_others,
}

-- The order is a valid one over shards that exist.
pub record IsTracking (shards : ℕ) (lru : LruCache ℕ) : Type 0 where
  pub valid : IsValid ℕ_discrete lru
  pub positive : 0 < lru.max_capacity
  pub tracked : All (λ t. t < shards) (order lru)

pub access-IsTracking :
    (shards : ℕ) (lru : LruCache ℕ) (t : ℕ)
    → IsTracking shards lru
    → t < shards
    → (lru' : LruCache ℕ) × (b : Bool) × (access ℕ_discrete lru t ≡ some (lru', b))
      × IsTracking shards lru'
access-IsTracking shards lru t h l =
    let (lru', ran, done) = access-Accessed ℕ_discrete lru t h.valid h.positive in
    (
      lru',
      not (contains ℕ_discrete lru t),
      ran,
      record {
        valid = done.valid;
        positive = omega (arith, done.capacity, h.positive);
        tracked = subst (All (λ t. t < shards)) (sym done.ordered) (
            All-take _ lru.max_capacity (t ∷ remove ℕ_discrete t (order lru))
              (l, All-remove ℕ_discrete _ t (order lru) h.tracked));
      },
    )

-- An id whose tag is not 0.
abbrev pub IsTagged : ℕ → Type 0
IsTagged id = ((1 + id) % 2 ^ 32 == 0) ≡ false

-- A task for a shard that exists, of ids that can be inserted.
abbrev pub IsQueued : ℕ → Task → Type 0
IsQueued shards task = (task.target < shards) × All IsTagged task.to_be_inserted

module _ (Vec : Type 0) (D : Diskann Vec) where
  open D use {Index, insert_point}

  -- The shards are there, every queued task has its shard and ids with a tag other than 0, and the
  -- next insert has its shard.
  pub record IsReady (c : Cache Vec D) : Type 0 where
    pub tracking : IsTracking (length c.memory_indices) c.lru_cache
    pub queued : All (IsQueued (length c.memory_indices)) c.tasks
    pub inside : c.active_insert_index_id < length c.memory_indices
    pub shards : c.number_of_mini_indexes ≡ length c.memory_indices

  -- A call that returns, and leaves a state that is ready.
  abbrev pub Runs : Option (Cache Vec D) → Type 0
  Runs o = (c : Cache Vec D) × (o ≡ some c) × IsReady c

  pub with_indices :
      (c : Cache Vec D) (indices : List Index)
      → length indices ≡ length c.memory_indices
      → IsReady c
      → IsReady (record c { memory_indices = indices })
  with_indices c indices e h = record {
    tracking = subst (λ n. IsTracking n c.lru_cache) (sym e) h.tracking;
    queued = subst (λ n. All (IsQueued n) c.tasks) (sym e) h.queued;
    inside = subst (λ n. c.active_insert_index_id < n) (sym e) h.inside;
    shards = h.shards ∙ sym e;
  }

  consolidate_shard-IsReady :
      (c : Cache Vec D) (i : ℕ) → IsReady c → IsReady (consolidate_shard Vec D c i)
  unfolding consolidate_shard
  consolidate_shard-IsReady c i h = elim (Option-cases (get_elem? c.memory_indices i)) [
    | inl e ↦ rw (e, consolidate_shard) h
    | inr (index, e) ↦
        rw (e, consolidate_shard)
          (with_indices c (set c.memory_indices i (consolidated Vec D index))
            (length-set c.memory_indices i (consolidated Vec D index)) h)
  ]

  pub insert_all-runs :
      (vectors : List Vec) (ids : List ℕ) (index : Index)
      → length ids ≤ length vectors
      → All IsTagged ids
      → (index' : Index) × (insert_all Vec D vectors ids index ≡ some index')
  unfolding insert_all insert_tagged mem_tag_of
  insert_all-runs vectors [] index h tags = (index, refl)
  insert_all-runs [] (id ∷ ids) index h tags = absurd (omega arith)
  insert_all-runs (v ∷ vectors) (id ∷ ids) index h (tag, tags) =
      let (index', ran) =
        insert_all-runs vectors ids (insert_point v ((1 + id) % 2 ^ 32) index).0 (omega arith)
          tags in
      (index', rw (tag) ran)

  module _ (fetch_vectors_by_ids : List ℕ → List Vec)
      (fetch-length : (ids : List ℕ) → length ids ≤ length (fetch_vectors_by_ids ids)) where
    pub run_task-runs :
        (task : Task) (c : Cache Vec D)
        → IsQueued (length c.memory_indices) task
        → (indices : List Index) × (run_task Vec D fetch_vectors_by_ids task c
            ≡ some (record c { memory_indices = indices }))
          × (length indices ≡ length c.memory_indices)
    unfolding run_task
    run_task-runs task c h =
        let (index, found) = get_elem?-some c.memory_indices task.target h.0 in
        let (filled, ran) =
          insert_all-runs (fetch_vectors_by_ids task.to_be_inserted) task.to_be_inserted index
            (fetch-length task.to_be_inserted) h.1 in
        (set c.memory_indices task.target filled, rw (found, ran), length-set _ task.target filled)

    run_tasks-Runs :
        (tasks : List Task) (c : Cache Vec D)
        → IsReady c
        → All (IsQueued (length c.memory_indices)) tasks
        → Runs (run_tasks Vec D fetch_vectors_by_ids tasks c)
    unfolding run_tasks
    run_tasks-Runs [] c h q = (c, refl, h)
    run_tasks-Runs (task ∷ tasks) c h q =
        let (indices, ran, len) = run_task-runs task c q.0 in
        let (c', ran', ready) =
          run_tasks-Runs tasks (record c { memory_indices = indices })
            (with_indices c indices len h) (subst (λ n. All (IsQueued n) tasks) (sym len) q.1) in
        (c', rw (ran) ran', ready)

    pub wait_idle-Runs :
        (c : Cache Vec D) → IsReady c → Runs (wait_idle Vec D fetch_vectors_by_ids c)
    unfolding wait_idle
    wait_idle-Runs c h =
        run_tasks-Runs c.tasks (record c { tasks = [] })
          (record { tracking = h.tracking; queued = tt; inside = h.inside; shards = h.shards })
          h.queued

    pub reclaim_insert_slots-Runs :
        (c : Cache Vec D) (i : ℕ)
        → IsReady c
        → Runs (reclaim_insert_slots Vec D fetch_vectors_by_ids c i)
    unfolding reclaim_insert_slots
    reclaim_insert_slots-Runs c i h =
        elim (Bool-cases (shard_has_capacity Vec D c i && not (shard_has_insert_slots Vec D c i))) [
          | inl e ↦
              let (c', ran, ready) = wait_idle-Runs c h in
              (
                consolidate_shard Vec D c' i,
                rw (e, reclaim_insert_slots, ran) refl,
                consolidate_shard-IsReady c' i ready,
              )
          | inr e ↦ (c, rw (e, reclaim_insert_slots) refl, h)
        ]

    pub reclaim_others-Runs :
        (shard i n : ℕ) (c : Cache Vec D)
        → IsReady c
        → Runs (reclaim_others Vec D fetch_vectors_by_ids shard i n c)
    unfolding reclaim_others
    reclaim_others-Runs shard i zero c h = (c, refl, h)
    reclaim_others-Runs shard i (suc n) c h = elim (Bool-cases (i == shard)) [
      | inl e ↦
          let (c', ran, ready) = reclaim_others-Runs shard (suc i) n c h in
          (c', rw (e, reclaim_others) ran, ready)
      | inr e ↦
          let (c', ran, ready) = reclaim_insert_slots-Runs c i h in
          let (c'', ran', ready') = reclaim_others-Runs shard (suc i) n c' ready in
          (c'', rw (e, reclaim_others, ran) ran', ready')
    ]
