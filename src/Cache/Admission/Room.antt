-- ===== src/Cache/Admission/Room.antt =====
-- `perform_eviction` of include/qvcache/qvcache.h replaces the least recently used shard.
use qvcache.Common.{
  length-set, All-take, ℕ, zero, suc, ◌+◌, ◌-◌, ◌≤◌, ◌<◌, ◌%◌, ◌==◌, List, [], ◌∷◌, reverse, false,
  some, length, get_elem?, get_elem?-some, length-reverse, set, take, All, ◌≡◌, refl, sym, ap, ◌∙◌,
  subst, arith, Bool-cases, List-cases, ◌⊎◌, inl, inr, ℕ_discrete,
}
use native.Mathlib.Omega.{mod_fact}
use mathlib.Core.Option.{some-injective}
use mathlib.Core.List.{reverse_aux}
use qvcache.Lru.{LruCache, order, contains, get_all_tags, get_lru_tags}
use qvcache.Cache.{Diskann, Cache}
use qvcache.Cache.Admission.{readmit, replace, perform_eviction}
use qvcache.Cache.Admission.Ready.{IsTracking, IsQueued, IsReady, access-IsTracking}

readmit-IsTracking :
    (Vec : Type 0) (D : Diskann Vec) (fetch : List ℕ → List Vec) (shards i n : ℕ) (lru : LruCache ℕ)
    → IsTracking shards lru
    → i + n ≤ shards
    → (lru' : LruCache ℕ) × (readmit Vec D fetch i n lru ≡ some lru') × IsTracking shards lru'
unfolding readmit
readmit-IsTracking Vec D fetch shards i zero lru h l = (lru, refl, h)
readmit-IsTracking Vec D fetch shards i (suc n) lru h l =
    elim (Bool-cases (contains ℕ_discrete lru i)) [
      | inl e ↦
          let (lru', ran, done) =
            readmit-IsTracking Vec D fetch shards (suc i) n lru h (omega arith) in
          (lru', rw (e, readmit) ran, done)
      | inr e ↦
          let (moved, b, ran, tracking) = access-IsTracking shards lru i h (omega arith) in
          let (lru', ran', done) =
            readmit-IsTracking Vec D fetch shards (suc i) n moved tracking (omega arith) in
          (lru', rw (e, readmit, ran) ran', done)
    ]

pub All-reverse_aux :
    (P : ℕ → Type 0) (xs acc : List ℕ) → All P xs → All P acc → All P (reverse_aux xs acc)
All-reverse_aux P [] acc h a = a
All-reverse_aux P (x ∷ xs) acc h a = All-reverse_aux P xs (x ∷ acc) h.1 (h.0, a)

take_one-nil : (xs : List ℕ) → take 1 (reverse xs) ≡ [] → xs ≡ []
take_one-nil [] e = refl
take_one-nil (x ∷ xs) e = elim (List-cases (reverse (x ∷ xs))) [
  | inl r ↦ absurd (omega (arith, length-reverse (x ∷ xs), ap length r))
  | inr (y, ys, r) ↦
      let none_taken : take 1 (y ∷ ys) ≡ [] = subst (λ l. take 1 l ≡ []) r e in
      absurd (omega (arith, ap length none_taken))
]

take_one-cons : (xs rest : List ℕ) (id : ℕ) → take 1 xs ≡ id ∷ rest → take 1 xs ≡ id ∷ []
take_one-cons [] rest id e = absurd (omega (arith, ap length e))
take_one-cons (x ∷ xs) rest id e =
    ap (λ y. y ∷ []) (some-injective x id (ap (λ l. get_elem? l 0) e))

module _ (Vec : Type 0) (D : Diskann Vec) where
  open D use {Index, create}

  -- The shard is replaced by a fresh one, which is the next to insert into.
  pub record Replaced (c c' : Cache Vec D) (id : ℕ) : Type 0 where
    pub ready : IsReady Vec D c'
    pub fresh : c'.memory_indices ≡ set c.memory_indices id (create c.max_points_per_index)
    pub active : c'.active_insert_index_id ≡ id
    pub idle : c'.eviction_in_progress ≡ false

  -- What an eviction does: nothing if one shard alone is tracked, or else it replaces the least
  -- recently used one, or the next to the active one if none is tracked.
  abbrev pub Evicts : Cache Vec D → Cache Vec D → Type 0
  Evicts c c' =
      ((length (order c.lru_cache) ≡ 1)
        × IsReady Vec D c'
        × (c' ≡ record c { eviction_in_progress = false }))
      ⊎ ((id : ℕ) × Replaced c c' id
          × ((get_lru_tags c.lru_cache 1 ≡ id ∷ [])
              ⊎ ((order c.lru_cache ≡ [])
                  × (id ≡ (c.active_insert_index_id + 1) % c.number_of_mini_indexes))))

  module _ (fetch : List ℕ → List Vec)
      (fetch-length : (ids : List ℕ) → length ids ≤ length (fetch ids)) where
    replace-Replaced :
        (c : Cache Vec D) (id : ℕ) (lru : LruCache ℕ)
        → IsReady Vec D c
        → IsTracking (length c.memory_indices) lru
        → id < length c.memory_indices
        → (c' : Cache Vec D) × (replace Vec D fetch c id lru ≡ some c') × Replaced c c' id
    unfolding replace
    replace-Replaced c id lru h t l =
        let (old, found) = get_elem?-some c.memory_indices id l in
        let (lru', ran, done) =
          readmit-IsTracking Vec D fetch (length c.memory_indices) 0 c.number_of_mini_indexes lru t
            (omega (arith, h.shards)) in
        let len = length-set c.memory_indices id (create c.max_points_per_index) in
        (
          record c {
            memory_indices = set c.memory_indices id (create c.max_points_per_index);
            active_insert_index_id = id;
            lru_cache = lru';
            eviction_in_progress = false;
          },
          rw (found, ran) refl,
          record {
            ready = record {
              tracking = subst (λ n. IsTracking n lru') (sym len) done;
              queued = subst (λ n. All (IsQueued n) c.tasks) (sym len) h.queued;
              inside = subst (λ n. id < n) (sym len) l;
              shards = h.shards ∙ sym len;
            };
            fresh = refl;
            active = refl;
            idle = refl;
          },
        )

    -- The eviction never faults. With one tracked shard it does nothing; otherwise it replaces the
    -- least recently used one, which `get_lru_tags` lists, or the next to the active one if none is
    -- tracked. Of the state before, IsReady holds and the backend returns a vector for each id.
    pub perform_eviction-Replaced :
        (c : Cache Vec D)
        → IsReady Vec D c
        → (c' : Cache Vec D) × (perform_eviction Vec D fetch c ≡ some c') × Evicts c c'
    unfolding perform_eviction get_lru_tags get_all_tags
    perform_eviction-Replaced c h = elim (List-cases (get_lru_tags c.lru_cache 1)) [
      | inl e ↦
          let m = c.number_of_mini_indexes - 1 in
          let en : c.number_of_mini_indexes ≡ suc m = omega (arith, h.shards, h.inside) in
          let (c', ran, done) =
            replace-Replaced c ((c.active_insert_index_id + 1) % suc m) c.lru_cache h h.tracking
              (omega (arith, mod_fact (c.active_insert_index_id + 1) m, en, h.shards)) in
          (
            c',
            rw (e, perform_eviction, en) ran,
            inr (
              (c.active_insert_index_id + 1) % suc m,
              done,
              inr (
                take_one-nil (order c.lru_cache) e,
                ap (λ n. (c.active_insert_index_id + 1) % n) (sym en),
              ),
            ),
          )
      | inr (id, rest, e) ↦ elim (Bool-cases (length (get_all_tags c.lru_cache) == 1)) [
        | inl one ↦ (
          record c { eviction_in_progress = false },
          rw (e, perform_eviction, one) refl,
          inl (
            ground (arith, one),
            record {
              tracking = h.tracking;
              queued = h.queued;
              inside = h.inside;
              shards = h.shards;
            },
            refl,
          ),
        )
        | inr more ↦
            let inside : id < length c.memory_indices =
              (subst (All (λ t. t < length c.memory_indices)) e (
                All-take _ 1 (reverse (order c.lru_cache))
                  (All-reverse_aux _ (order c.lru_cache) [] h.tracking.tracked tt))).0 in
            let (lru, b, ran, tracking) =
              access-IsTracking (length c.memory_indices) c.lru_cache id h.tracking inside in
            let (c', ran', done) = replace-Replaced c id lru h tracking inside in
            (
              c',
              rw (e, perform_eviction, more, ran) ran',
              inr (id, done, inl (take_one-cons _ rest id e)),
            )
      ]
    ]
