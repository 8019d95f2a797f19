-- ===== src/Search/Tried.antt =====
-- What one try for a hit gives, in the search of include/qvcache/qvcache.h.
use qvcache.Common.{
  ℕ, zero, suc, ◌≤◌, ◌<◌, leb, List, [], ◌∷◌, true, Option, none, some, length, take, All, ◌≡◌,
  refl, sym, ap, ◌∙◌, subst, arith, Bool-cases, leb→le, ◌⊎◌, inl, inr,
}
use mathlib.Core.Bool.{true≢false}
use qvcache.Floats.{Floats}
use qvcache.Region.Key.{Coordinate}
use qvcache.Lru.{LruCache}
use qvcache.Merge.{AllResults}
use qvcache.Cache.{Diskann, Cache}
use qvcache.Cache.Live.{IsLive}
use qvcache.Cache.Admission.Ready.{IsTracking, IsReady, access-IsTracking}
use qvcache.QvCache.{Backend, QvCache}
use qvcache.QvCache.HitTest.{SameShards, is_hit-Tested, trans-SameShards}
use qvcache.Search.{
  Engines, Answer, touch, answer_if_hit, attempt, attempt_single, attempt_each, is_in, entry,
  or_try,
}

touch-IsTracking :
    (shards : ℕ) (ids : List ℕ) (lru : LruCache ℕ)
    → All (λ id. id < shards) ids
    → IsTracking shards lru
    → (lru' : LruCache ℕ) × (touch ids lru ≡ some lru') × IsTracking shards lru'
unfolding touch
touch-IsTracking shards [] lru h t = (lru, refl, t)
touch-IsTracking shards (id ∷ ids) lru h t =
    let (moved, b, ran, t') = access-IsTracking shards lru id t h.0 in
    let (lru', ran', t'') = touch-IsTracking shards ids moved h.1 t' in
    (lru', rw (ran, touch) ran', t'')

take-length : {A : Type 0} (n : ℕ) (xs : List A) → n ≤ length xs → length (take n xs) ≡ n
take-length zero xs h = refl
take-length (suc n) [] h = absurd (omega arith)
take-length (suc n) (x ∷ xs) h = ap suc (take-length n xs (omega arith))

module _ (F : Floats) (Vec : Type 0) (project : Vec → List (Coordinate F)) (D : Diskann Vec)
    (B : Backend Vec) (E : Engines F Vec D B) where
  open F use {Real}

  abbrev Q : Type 0
  Q = QvCache F Vec project D B

  -- The answer is K live results, and the state is ready for the next call.
  pub record Hit (q : Q) (K : ℕ) (q' : Q) (a : Answer F) : Type 0 where
    pub hit : a.hit ≡ true
    pub tags : length a.tags ≡ K
    pub distances : length a.distances ≡ K
    pub live : All (IsLive Vec D q.shards) a.tags
    pub ready : IsReady Vec D q'.shards
    pub deleted : q'.shards.deleted_ids ≡ q.shards.deleted_ids
    pub backend : q'.backend ≡ q.backend

  -- A try returns, with a hit or with the shards as they were.
  abbrev pub Tried : Q → ℕ → Option (Q × Option (Answer F)) → Type 0
  Tried q K r =
      ((q' : Q) × (r ≡ some (q', none)) × SameShards F Vec project D B q q')
      ⊎ ((q' : Q) × (a : Answer F) × (r ≡ some (q', some a)) × Hit q K q' a)

  abbrev Same : Q → Q → Type 0
  Same = SameShards F Vec project D B

  pub kept-IsReady : (q q1 : Q) → Same q q1 → IsReady Vec D q.shards → IsReady Vec D q1.shards
  kept-IsReady q q1 s h = subst (IsReady Vec D) (sym s.shards) h

  pub kept-All :
      (q q1 : Q) (ids : List ℕ)
      → Same q q1
      → All (λ id. id < length q.shards.memory_indices) ids
      → All (λ id. id < length q1.shards.memory_indices) ids
  kept-All q q1 ids s inside =
      subst (λ (c : Cache Vec D). All (λ id. id < length c.memory_indices) ids) (sym s.shards)
        inside

  pub kept-Hit : (q q1 q' : Q) (K : ℕ) (a : Answer F) → Same q q1 → Hit q1 K q' a → Hit q K q' a
  kept-Hit q q1 q' K a s h = record {
    hit = h.hit;
    tags = h.tags;
    distances = h.distances;
    live = subst (λ c. All (IsLive Vec D c) a.tags) s.shards h.live;
    ready = h.ready;
    deleted = h.deleted ∙ ap (λ c. c.deleted_ids) s.shards;
    backend = h.backend ∙ s.backend;
  }

  pub kept-Tried :
      (q q1 : Q) (K : ℕ) (r : Option (Q × Option (Answer F)))
      → Same q q1
      → Tried q1 K r
      → Tried q K r
  kept-Tried q q1 K r s (inl (q', e, t)) =
      inl (q', e, trans-SameShards F Vec project D B q q1 q' s t)
  kept-Tried q q1 K r s (inr (q', a, e, h)) = inr (q', a, e, kept-Hit q q1 q' K a s h)

  pub or_try-Tried :
      (q : Q) (K : ℕ) (r : Option (Q × Option (Answer F)))
      (next : Q → Option (Q × Option (Answer F)))
      → Tried q K r
      → ((q1 : Q) → Same q q1 → Tried q1 K (next q1))
      → Tried q K (or_try F Vec project D B E r next)
  or_try-Tried q K r next (inl (q1, e, s)) f =
      subst (λ o. Tried q K (or_try F Vec project D B E o next)) (sym e)
        (kept-Tried q q1 K (next q1) s (f q1 s))
  or_try-Tried q K r next (inr (q', a, e, h)) f = inr (q', a, rw e refl, h)

  reused-IsReady :
      (c : Cache Vec D) (lru : LruCache ℕ)
      → IsReady Vec D c
      → IsTracking (length c.memory_indices) lru
      → IsReady Vec D (record c { lru_cache = lru })
  reused-IsReady c lru h t = record {
    tracking = t;
    queued = h.queued;
    inside = h.inside;
    shards = h.shards;
  }

  pub answer_if_hit-Tried :
      (q : Q) (query : Vec) (K : ℕ) (ids tags : List ℕ) (ds : List Real)
      → IsReady Vec D q.shards
      → All (λ id. id < length q.shards.memory_indices) ids
      → K ≤ length tags
      → K ≤ length ds
      → Tried q K (answer_if_hit F Vec project D B E q query K ids tags ds)
  unfolding answer_if_hit
  answer_if_hit-Tried q query K ids tags ds h inside ht hd =
      let (q', hit, ran, t) =
        is_hit-Tested F Vec project D B q query K ds tags (length tags) hd ht in
      elim (Bool-cases hit) [
        | inr e ↦ inl (q', rw (ran, answer_if_hit, e) refl, t.same)
        | inl e ↦
            let (lru, ran', tracking) =
              touch-IsTracking (length q'.shards.memory_indices) ids q'.shards.lru_cache
                (kept-All q q' ids t.same inside) (kept-IsReady q q' t.same h).tracking in
            inr (
              record q' { shards = record q'.shards { lru_cache = lru } },
              record { hit = true; tags = take K tags; distances = take K ds },
              rw (ran, answer_if_hit, e, ran') refl,
              record {
                hit = refl;
                tags = take-length K tags ht;
                distances = take-length K ds hd;
                live = elim t.live [
                  | inl no_hit ↦ absurd (true≢false (sym e ∙ no_hit))
                  | inr l ↦ l.1
                ];
                ready = reused-IsReady q'.shards lru (kept-IsReady q q' t.same h) tracking;
                deleted = ap (λ c. c.deleted_ids) t.same.shards;
                backend = t.same.backend;
              },
            )
      ]

  pub refl-SameShards : (q : Q) → Same q q
  refl-SameShards q = record { shards = refl; backend = refl; lazy = refl }

  pub attempt-Tried :
      (q : Q) (query : Vec) (K : ℕ) (ids tags : List ℕ) (ds : List Real)
      → IsReady Vec D q.shards
      → All (λ id. id < length q.shards.memory_indices) ids
      → Tried q K (attempt F Vec project D B E q query K ids tags ds)
  unfolding attempt
  attempt-Tried q query K ids tags ds h inside = elim (Bool-cases (leb K (length tags))) [
    | inr e ↦ inl (q, rw (e, attempt) refl, refl-SameShards q)
    | inl e ↦ elim (Bool-cases (leb K (length ds))) [
      | inr f ↦ inl (q, rw (e, attempt, f) refl, refl-SameShards q)
      | inl f ↦
          rw (e, attempt, f)
            (answer_if_hit-Tried q query K ids tags ds h inside (leb→le _ _ e) (leb→le _ _ f))
    ]
  ]

  pub attempt_single-Tried :
      (q : Q) (query : Vec) (K : ℕ) (all : AllResults F Vec) (searched : List ℕ)
      → IsReady Vec D q.shards
      → All (λ id. id < length q.shards.memory_indices) searched
      → Tried q K (attempt_single F Vec project D B E q query K all searched)
  unfolding attempt_single
  attempt_single-Tried q query K all [] h inside = inl (q, refl, refl-SameShards q)
  attempt_single-Tried q query K all (id ∷ []) h inside =
      attempt-Tried q query K (id ∷ []) _ _ h inside
  attempt_single-Tried q query K all (id ∷ id' ∷ ids) h inside = inl (q, refl, refl-SameShards q)

  pub attempt_each-Tried :
      (q : Q) (query : Vec) (K : ℕ) (all : AllResults F Vec) (searched ids : List ℕ)
      → IsReady Vec D q.shards
      → All (λ id. id < length q.shards.memory_indices) ids
      → Tried q K (attempt_each F Vec project D B E q query K all searched ids)
  unfolding attempt_each
  attempt_each-Tried q query K all searched [] h inside = inl (q, refl, refl-SameShards q)
  attempt_each-Tried q query K all searched (id ∷ ids) h inside =
      elim (Bool-cases (is_in id searched)) [
        | inr e ↦ rw (e, attempt_each) (attempt_each-Tried q query K all searched ids h inside.1)
        | inl e ↦
            elim (attempt-Tried q query K (id ∷ []) (entry all.all_tags id) (entry all.all_dists id)
              h (inside.0, tt)) [
                | inr (q', a, ran, hit) ↦ inr (q', a, rw (e, attempt_each, ran) refl, hit)
                | inl (q1, ran, s) ↦
                    rw (e, attempt_each, ran)
                      (kept-Tried q q1 K _ s (
                        attempt_each-Tried q1 query K all searched ids (kept-IsReady q q1 s h)
                          (kept-All q q1 ids s inside.1)))
              ]
      ]
