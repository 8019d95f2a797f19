-- ===== src/Search/Missed.antt =====
-- What `handle_backend_miss` of include/qvcache/qvcache.h returns and leaves behind.
use qvcache.Common.{
  ℕ, zero, suc, ◌+◌, ◌%◌, ◌^◌, ◌≤◌, ◌<◌, ◌==◌, List, [], ◌∷◌, ◌++◌, map, false, if◌then◌else◌,
  Option, none, some, length, get_elem?-some, take, All, ◌≡◌, refl, sym, ◌∙◌, subst, arith,
  Bool-cases, inl, inr,
}
use qvcache.Floats.{Floats}
use qvcache.Region.Key.{Coordinate}
use qvcache.Cache.{Diskann, Task, Cache, tag_max, is_deleted_id}
use qvcache.Cache.Admission.Ready.{IsTagged, IsReady}
use qvcache.Cache.Admission.Ensure.{ensure_admit_shard-IsReady}
use qvcache.QvCache.{Backend, Update, QvCache, fetched, update_theta, catch_up}
use qvcache.QvCache.HitTest.{catch_up-SameShards, update_theta-SameShards}
use qvcache.Search.{Engines, Answer, admissible, submit, kth_distance, handle_backend_miss}

pub All-append_one :
    {A : Type 0} (P : A → Type 0) (xs : List A) (x : A) → All P xs → P x → All P (xs ++ x ∷ [])
All-append_one P [] x h p = (p, tt)
All-append_one P (y ∷ ys) x h p = (h.0, All-append_one P ys x h.1 p)

unset-IsTagged : (t : ℕ) → (t % 2 ^ 32 == tag_max) ≡ false → IsTagged t
unfolding tag_max
unset-IsTagged t e = ground arith

module _ (F : Floats) (Vec : Type 0) (project : Vec → List (Coordinate F)) (D : Diskann Vec)
    (B : Backend Vec) (E : Engines F Vec D B) where
  open F use {Real}

  abbrev Q : Type 0
  Q = QvCache F Vec project D B

  -- The tags that are set and whose ids are not deleted.
  abbrev pub live_ids : Cache Vec D → List ℕ → List ℕ
  live_ids c [] = []
  live_ids c (t ∷ tags) =
      if t % 2 ^ 32 == tag_max
      then live_ids c tags
      else if is_deleted_id Vec D c t
      then live_ids c tags
      else t ∷ live_ids c tags

  -- The answer is the backend's, each tag moved by one, and its live ids wait for a shard.
  pub record Missed (q : Q) (K : ℕ) (tags : List ℕ) (dists : List Real) (q' : Q) (a : Answer F)
      : Type 0 where
    pub miss : a.hit ≡ false
    pub tags_moved : a.tags ≡ map (λ t. (t + 1) % 2 ^ 32) (take K tags)
    pub distances : a.distances ≡ take K dists
    pub ready : IsReady Vec D q'.shards
    pub target : ℕ
    pub before : List Task
    pub queued :
        q'.shards.tasks
        ≡ before
          ++ record { target = target; to_be_inserted = live_ids q.shards (take K tags) } ∷ []
    pub inside : target < length q'.shards.memory_indices
    pub backend : q'.backend ≡ q.backend

  -- An id that is set has a tag other than 0.
  pub live_ids-IsTagged : (c : Cache Vec D) (tags : List ℕ) → All IsTagged (live_ids c tags)
  live_ids-IsTagged c [] = tt
  live_ids-IsTagged c (t ∷ tags) = elim (Bool-cases (t % 2 ^ 32 == tag_max)) [
    | inl e ↦ rw (e) (live_ids-IsTagged c tags)
    | inr e ↦ elim (Bool-cases (is_deleted_id Vec D c t)) [
      | inl d ↦ rw (e, d) (live_ids-IsTagged c tags)
      | inr d ↦ rw (e, d) (unset-IsTagged t e, live_ids-IsTagged c tags)
    ]
  ]

  pub admissible-live_ids :
      (c : Cache Vec D) (K : ℕ) (tags : List ℕ)
      → K ≤ length tags
      → admissible F Vec project D B E c K tags ≡ some (live_ids c (take K tags))
  unfolding admissible
  admissible-live_ids c zero tags h = refl
  admissible-live_ids c (suc k) [] h = absurd (omega arith)
  admissible-live_ids c (suc k) (t ∷ tags) h = rw (admissible-live_ids c k tags (omega arith)) refl

  kth_distance-runs :
      (K : ℕ) (dists : List Real)
      → K ≤ length dists
      → (d : Real) × (kth_distance F Vec project D B E K dists ≡ some d)
  unfolding kth_distance
  kth_distance-runs zero dists h = (F.zero_real, refl)
  kth_distance-runs (suc k) dists h = get_elem?-some dists k (omega arith)

  pub submitted-IsReady :
      (c : Cache Vec D) (target : ℕ) (ids : List ℕ)
      → IsReady Vec D c
      → target < length c.memory_indices
      → All IsTagged ids
      → IsReady Vec D
          (record c { tasks = c.tasks ++ record { target = target; to_be_inserted = ids } ∷ [] })
  submitted-IsReady c target ids h l tags = record {
    tracking = h.tracking;
    queued = All-append_one _ c.tasks _ h.queued (l, tags);
    inside = h.inside;
    shards = h.shards;
  }

  submit-Missed :
      (q q1 : Q) (K target : ℕ) (tags : List ℕ) (dists : List Real)
      (u : Option (Update F Vec project D B))
      → IsReady Vec D q1.shards
      → target < length q1.shards.memory_indices
      → q1.backend ≡ q.backend
      → Missed q K tags dists
          (submit F Vec project D B E q1 target (live_ids q.shards (take K tags)) u)
          (record {
            hit = false;
            tags = map (λ t. (t + 1) % 2 ^ 32) (take K tags);
            distances = take K dists;
          })
  unfolding submit
  submit-Missed q q1 K target tags dists u h l b = record {
    miss = refl;
    tags_moved = refl;
    distances = refl;
    ready = submitted-IsReady q1.shards target _ h l (live_ids-IsTagged q.shards (take K tags));
    target = target;
    before = q1.shards.tasks;
    queued = refl;
    inside = l;
    backend = b;
  }

  pub handle_backend_miss-Missed :
      (q : Q) (query : Vec) (K : ℕ) (tags : List ℕ) (dists : List Real)
      → IsReady Vec D q.shards
      → ((ids : List ℕ) → length ids ≤ length (fetched F Vec project D B q.backend ids))
      → E.search_backend q.backend query K ≡ some (tags, dists)
      → K ≤ length tags
      → K ≤ length dists
      → (q' : Q) × (a : Answer F) × (handle_backend_miss F Vec project D B E q query K
          ≡ some (q', a))
        × Missed q K tags dists q' a
  unfolding handle_backend_miss
  handle_backend_miss-Missed q query K tags dists h fetch answered ht hd =
      let (shards, target, ran, ready, inside) =
        ensure_admit_shard-IsReady Vec D (fetched F Vec project D B q.backend) fetch q.shards h in
      let (kth, read) = kth_distance-runs K dists hd in
      let ids = admissible-live_ids q.shards K tags ht in
      let caught = catch_up F Vec project D B (record q { shards = shards }) in
      let s = catch_up-SameShards F Vec project D B (record q { shards = shards }) in
      let u : Update F Vec project D B = record {
        query_ptr = query;
        K = K;
        query_distance = kth;
      } in
      elim (Bool-cases q.lazy_theta_updates) [
        | inl e ↦ (
          submit F Vec project D B E caught target (live_ids q.shards (take K tags)) (some u),
          _,
          rw (answered, handle_backend_miss, ids, ran, read, e) refl,
          submit-Missed q caught K target tags dists (some u)
              (subst (IsReady Vec D) (sym s.shards) ready)
              (subst (λ (c : Cache Vec D). target < length c.memory_indices) (sym s.shards) inside)
              s.backend,
        )
        | inr e ↦
            let taught = update_theta F Vec project D B caught u in
            let s' = update_theta-SameShards F Vec project D B caught u in
            (
              submit F Vec project D B E taught target (live_ids q.shards (take K tags)) none,
              _,
              rw (answered, handle_backend_miss, ids, ran, read, e) refl,
              submit-Missed q taught K target tags dists none
                  (subst (IsReady Vec D) (sym (s'.shards ∙ s.shards)) ready)
                  (subst (λ (c : Cache Vec D). target < length c.memory_indices)
                    (sym (s'.shards ∙ s.shards)) inside)
                  (s'.backend ∙ s.backend),
            )
      ]
