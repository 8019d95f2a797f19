-- ===== src/Writes/Ready.antt =====
-- The writes of include/qvcache/qvcache.h run to their end and leave a cache that is ready.
use qvcache.Common.{
  ℕ, ◌%◌, ◌^◌, suc, ◌+◌, ◌≤◌, ◌<◌, ◌==◌, ltb, ◌||◌, not, List, [], ◌∷◌, All, find, Bool, true,
  false, Option, none, some, length, length-set, get_elem?, set, ◌≡◌, refl, sym, ◌∙◌, subst, arith,
  Bool-cases, Option-cases, ◌⊎◌, inl, inr, ℕ_discrete,
}
use mathlib.Core.Bool.{true≢false}
use qvcache.Cache.{
  Diskann, Cache, size_max, has_slots, find_loop, find_shard_with_capacity, shard_has_insert_slots,
  is_deleted_id, mem_tag_of, insert_tagged, note_admitted_tag, insert_point_into_shard,
}
use qvcache.Cache.Admission.{admit_to, try_admit_data_vector}
use qvcache.Cache.Admission.Ready.{
  IsTracking, IsTagged, IsQueued, IsReady, access-IsTracking, reclaim_insert_slots-Runs,
}
use qvcache.Cache.Admission.Ensure.{shard_has_insert_slots-inside}

-- A vector that is given has an id whose tag is not 0.
abbrev pub IsInsertable : {Vec : Type 0} → ℕ → Option Vec → Type 0
IsInsertable id none = Unit
IsInsertable id (some v) = IsTagged id

module _ (Vec : Type 0) (D : Diskann Vec) where
  open D use {Index, active}

  find_loop-below :
      (max_points i : ℕ) (indices : List Index) (best load : ℕ)
      → (find_loop Vec D max_points i indices best load ≡ best)
        ⊎ (find_loop Vec D max_points i indices best load < i + length indices)
  unfolding find_loop
  find_loop-below max_points i [] best load = inl refl
  find_loop-below max_points i (index ∷ rest) best load =
      elim (Bool-cases (has_slots Vec D max_points index)) [
        | inr e ↦ elim (find_loop-below max_points (suc i) rest best load) [
          | inl o ↦ inl (rw (e, find_loop) o)
          | inr l ↦ inr (rw (e, find_loop) (omega (arith, l)))
        ]
        | inl e ↦ elim (Bool-cases (ltb (active index) load)) [
          | inr c ↦ elim (find_loop-below max_points (suc i) rest best load) [
            | inl o ↦ inl (rw (e, find_loop, c) o)
            | inr l ↦ inr (rw (e, find_loop, c) (omega (arith, l)))
          ]
          | inl c ↦ elim (find_loop-below max_points (suc i) rest i (active index)) [
            | inl o ↦ inr (rw (e, find_loop, c, o) (omega arith))
            | inr l ↦ inr (rw (e, find_loop, c) (omega (arith, l)))
          ]
        ]
      ]

  -- What a state needs to be ready is the same.
  pub record SameFrame (c c' : Cache Vec D) : Type 0 where
    pub order : c'.lru_cache ≡ c.lru_cache
    pub tasks : c'.tasks ≡ c.tasks
    pub target : c'.active_insert_index_id ≡ c.active_insert_index_id
    pub number : c'.number_of_mini_indexes ≡ c.number_of_mini_indexes
    pub size : length c'.memory_indices ≡ length c.memory_indices

  pub moved-IsReady : (c c' : Cache Vec D) → SameFrame c c' → IsReady Vec D c → IsReady Vec D c'
  moved-IsReady c c' f h = record {
    tracking =
        subst (λ n. IsTracking n c'.lru_cache) (sym f.size)
          (subst (IsTracking (length c.memory_indices)) (sym f.order) h.tracking);
    queued =
        subst (λ n. All (IsQueued n) c'.tasks) (sym f.size)
          (subst (All (IsQueued (length c.memory_indices))) (sym f.tasks) h.queued);
    inside = omega (arith, f.target, f.size, h.inside);
    shards = f.number ∙ h.shards ∙ sym f.size;
  }

  note_admitted_tag-SameFrame :
      (c : Cache Vec D) (tag : ℕ) → SameFrame c (note_admitted_tag Vec D c tag)
  unfolding note_admitted_tag
  note_admitted_tag-SameFrame c tag = elim (Option-cases (find ℕ_discrete tag c.admit_set)) [
    | inl e ↦
        rw (e, note_admitted_tag)
          record { order = refl; tasks = refl; target = refl; number = refl; size = refl }
    | inr (u, e) ↦
        rw (e, note_admitted_tag)
          record { order = refl; tasks = refl; target = refl; number = refl; size = refl }
  ]

  set-SameFrame :
      (c : Cache Vec D) (shard : ℕ) (index : Index)
      → SameFrame c (record c { memory_indices = set c.memory_indices shard index })
  set-SameFrame c shard index = record {
    order = refl;
    tasks = refl;
    target = refl;
    number = refl;
    size = length-set c.memory_indices shard index;
  }

  trans-SameFrame : (a b c : Cache Vec D) → SameFrame a b → SameFrame b c → SameFrame a c
  trans-SameFrame a b c f g = record {
    order = g.order ∙ f.order;
    tasks = g.tasks ∙ f.tasks;
    target = g.target ∙ f.target;
    number = g.number ∙ f.number;
    size = g.size ∙ f.size;
  }

  refl-SameFrame : (c : Cache Vec D) → SameFrame c c
  refl-SameFrame c = record {
    order = refl;
    tasks = refl;
    target = refl;
    number = refl;
    size = refl;
  }

  insert_point_into_shard-SameFrame :
      (c : Cache Vec D) (shard id : ℕ) (v : Vec)
      → IsTagged id
      → (c' : Cache Vec D) × (insert_point_into_shard Vec D c shard id (some v) ≡ some c')
        × SameFrame c c'
  unfolding insert_point_into_shard insert_tagged mem_tag_of
  insert_point_into_shard-SameFrame c shard id v tag =
      elim (Option-cases (get_elem? c.memory_indices shard)) [
        | inl e ↦ (c, rw (e, insert_point_into_shard) refl, refl-SameFrame c)
        | inr (index, e) ↦
            elim (Bool-cases
              (is_deleted_id Vec D c id || not (has_slots Vec D c.max_points_per_index index))) [
                | inl b ↦ (c, rw (e, insert_point_into_shard, b) refl, refl-SameFrame c)
                | inr b ↦
                    let tried = D.insert_point v ((1 + id) % 2 ^ 32) index in
                    let put_in = set-SameFrame c shard tried.0 in
                    let c' = record c { memory_indices = set c.memory_indices shard tried.0 } in
                    elim (Bool-cases (tried.1 == 0)) [
                      | inr t ↦ (c', rw (e, insert_point_into_shard, b, tag, t) refl, put_in)
                      | inl t ↦ (
                        note_admitted_tag Vec D c' ((1 + id) % 2 ^ 32),
                        rw (e, insert_point_into_shard, b, tag, t) refl,
                        trans-SameFrame c _ _ put_in (note_admitted_tag-SameFrame _ _),
                      )
                    ]
              ]
      ]

  module _ (fetch : List ℕ → List Vec)
      (fetch-length : (ids : List ℕ) → length ids ≤ length (fetch ids)) where
    abbrev Admits : Option (Cache Vec D × Bool) → Type 0
    Admits r = (c' : Cache Vec D) × (b : Bool) × (r ≡ some (c', b)) × IsReady Vec D c'

    admit_to-IsReady :
        (c : Cache Vec D) (shard id : ℕ) (v : Vec)
        → IsReady Vec D c
        → IsTagged id
        → (shard ≡ size_max) ⊎ (shard < length c.memory_indices)
        → Admits (admit_to Vec D fetch c shard id v)
    unfolding admit_to
    admit_to-IsReady c shard id v h tag there = elim (Bool-cases (shard == size_max)) [
      | inl e ↦ (c, false, rw (e, admit_to) refl, h)
      | inr e ↦
          let (filled, inserted, f) = insert_point_into_shard-SameFrame c shard id v tag in
          let ready = moved-IsReady c filled f h in
          let (lru, b, ran, tracking) =
            access-IsTracking (length filled.memory_indices) filled.lru_cache shard ready.tracking
              (inside c filled shard e there f.size) in
          (
            record filled { lru_cache = lru },
            true,
            rw (e, admit_to, inserted, ran) refl,
            record {
              tracking = tracking;
              queued = ready.queued;
              inside = ready.inside;
              shards = ready.shards;
            },
          )
    ]
      where
        inside :
            (c filled : Cache Vec D) (shard : ℕ)
            → (shard == size_max) ≡ false
            → (shard ≡ size_max) ⊎ (shard < length c.memory_indices)
            → length filled.memory_indices ≡ length c.memory_indices
            → shard < length filled.memory_indices
        inside c filled shard e (inl o) s = absurd (true≢false (ground arith))
        inside c filled shard e (inr l) s = omega (arith, l, s)

    pub find_shard_with_capacity-below :
        (c : Cache Vec D)
        → (find_shard_with_capacity Vec D c ≡ size_max)
          ⊎ (find_shard_with_capacity Vec D c < length c.memory_indices)
    unfolding find_shard_with_capacity
    find_shard_with_capacity-below c =
        elim (find_loop-below c.max_points_per_index 0 c.memory_indices size_max size_max) [
          | inl o ↦ inl o
          | inr l ↦ inr (omega (arith, l))
        ]

    pub try_admit_data_vector-IsReady :
        (c : Cache Vec D) (id : ℕ) (v : Option Vec)
        → IsReady Vec D c
        → IsInsertable id v
        → Admits (try_admit_data_vector Vec D fetch c id v)
    unfolding try_admit_data_vector
    try_admit_data_vector-IsReady c id none h tag = (c, false, refl, h)
    try_admit_data_vector-IsReady c id (some v) h tag =
        let (c', ran, ready) =
          reclaim_insert_slots-Runs Vec D fetch fetch-length c c.active_insert_index_id h in
        elim (Bool-cases (shard_has_insert_slots Vec D c' c.active_insert_index_id)) [
          | inl e ↦
              let there =
                shard_has_insert_slots-inside Vec D fetch fetch-length c' c.active_insert_index_id
                  e in
              let (c'', b, ran', done) =
                admit_to-IsReady c' c.active_insert_index_id id v ready tag (inr there) in
              (c'', b, rw (ran, try_admit_data_vector, e) ran', done)
          | inr e ↦
              let (c'', b, ran', done) =
                admit_to-IsReady c' (find_shard_with_capacity Vec D c') id v ready tag
                  (find_shard_with_capacity-below c') in
              (c'', b, rw (ran, try_admit_data_vector, e) ran', done)
        ]
