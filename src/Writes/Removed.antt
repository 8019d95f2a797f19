-- ===== src/Writes/Removed.antt =====
-- A removed id is in no answer of the cache, include/qvcache/qvcache.h.
use mathlib.Core.Logic.{if_neg}
use mathlib.Core.Option.{none-ne-some, some-injective}
use qvcache.Common.{
  ℕ, zero, suc, ◌+◌, ◌-◌, ◌%◌, ◌^◌, ◌≤◌, ◌<◌, List, [], ◌∷◌, false, Option, none, some, find,
  find-put, find-put_self, length, get_elem?, take, All, ◌≡◌, refl, sym, ap, ◌∙◌, subst, arith,
  Bool-cases, inl, inr, ℕ_discrete, ◌>>=◌, Option-cases, erase, ◌≢◌, if◌then◌else◌, find-erase,
}
use qvcache.Floats.{Floats}
use qvcache.Region.Key.{Coordinate}
use qvcache.Cache.{Diskann, Cache, tag_max, mem_tag_of, has_k_live_results}
use qvcache.Cache.Live.{IsLive, has_k_live_results-IsLive}
use qvcache.Cache.Admission.{try_admit_data_vector}
use qvcache.Writes.Inserted.{KeepsAdmit, try_admit_data_vector-KeepsAdmit}
use qvcache.QvCache.{Backend, QvCache, fetched, catch_up}
use qvcache.QvCache.HitTest.{catch_up-SameShards}
use qvcache.Writes.{stale_write_regions, remove, insert}

-- A write of the cache, with its id and vector.
pub data Write (Vec : Type 0) : Type 0 where
  inserted : ℕ → Option Vec → Write Vec
  removed : ℕ → Option Vec → Write Vec

module _ (F : Floats) (Vec : Type 0) (project : Vec → List (Coordinate F)) (D : Diskann Vec)
    (B : Backend Vec) where
  abbrev Q : Type 0
  Q = QvCache F Vec project D B

  -- The id counts as deleted.
  abbrev pub IsDeleted : ℕ → Q → Type 0
  IsDeleted id q = find ℕ_discrete id q.shards.deleted_ids ≡ some tt

  stale-shards :
      (q : Q) (v : Option Vec) → (stale_write_regions F Vec project D B q v).shards ≡ q.shards
  unfolding stale_write_regions
  stale-shards q none = refl
  stale-shards q (some v) = elim (Bool-cases q.use_regional_theta) [
    | inl e ↦ rw (e, stale_write_regions) refl
    | inr e ↦ rw (e, stale_write_regions) refl
  ]

  remove-IsDeleted :
      (id : ℕ) (vector : Option Vec) (q : Q) → IsDeleted id (remove F Vec project D B q id vector)
  unfolding remove
  remove-IsDeleted id vector q = find-put_self ℕ_discrete id tt _

  remove_other-IsDeleted :
      (id other : ℕ) (vector : Option Vec) (q : Q)
      → IsDeleted id q
      → IsDeleted id (remove F Vec project D B q other vector)
  unfolding remove
  remove_other-IsDeleted id other vector q h = elim (ℕ_discrete other id) [
    | yes e ↦
        subst (λ i. IsDeleted i (remove F Vec project D B q other vector)) e
          (remove-IsDeleted other vector q)
    | no n ↦
        find-put ℕ_discrete other id tt _
        ∙ if_neg (ℕ_discrete other id) n _ _
        ∙ ap (λ c. find ℕ_discrete id c.deleted_ids) (stale-shards q _)
        ∙ h
  ]

  -- A tag of a deleted id is not live.
  not_live :
      (id : ℕ) (c : Cache Vec D) (tags : List ℕ) (j k : ℕ)
      → find ℕ_discrete id c.deleted_ids ≡ some tt
      → id < 2 ^ 32
      → get_elem? tags j ≡ some (mem_tag_of Vec D id)
      → j < k
      → All (IsLive Vec D c) (take k tags)
      → ⊥
  unfolding mem_tag_of tag_max
  not_live id c [] j k d b e l h = absurd (none-ne-some _ e)
  not_live id c (t ∷ tags) zero (suc k) d b e l h =
      let same : t ≡ (1 + id) % 2 ^ 32 = some-injective t _ e in
      elim (ℕ_discrete id tag_max) [
        | yes m ↦ h.0.0 (omega (arith, m, same))
        | no n ↦
            let back : t - 1 ≡ id = omega (arith, same, n, b) in
            none-ne-some _ (sym h.0.2 ∙ ap (λ i. find ℕ_discrete i c.deleted_ids) back ∙ d)
      ]
  not_live id c (t ∷ tags) (suc j) (suc k) d b e l h =
      not_live id c tags j k d b e (omega arith) h.1
  not_live id c (t ∷ tags) j zero d b e l h = absurd (omega arith)

  insert_other-IsDeleted :
      (id other : ℕ) (vector : Option Vec) (q q' : Q)
      → other ≢ id
      → insert F Vec project D B q other vector ≡ some q'
      → IsDeleted id q
      → IsDeleted id q'
  unfolding insert
  insert_other-IsDeleted id other vector q q' n ran h =
      let backend : B.State =
        if B.supports_updates then B.insert_vector other vector q.backend else q.backend in
      let kept : Cache Vec D = record q.shards {
        deleted_ids = erase ℕ_discrete other q.shards.deleted_ids;
      } in
      elim (Option-cases
        (try_admit_data_vector Vec D (fetched F Vec project D B backend) kept other vector)) [
          | inl e ↦ absurd (none-ne-some _ (sym (rw (e, insert) refl) ∙ ran))
          | inr (r, e) ↦
              let left : r.0.deleted_ids ≡ kept.deleted_ids =
                subst (KeepsAdmit Vec D kept.deleted_ids) e
                  (try_admit_data_vector-KeepsAdmit Vec D _ kept other vector) in
              let done : Q =
                stale_write_regions F Vec project D B
                  (catch_up F Vec project D B (record q { shards = r.0; backend = backend }))
                  vector in
              let returned : insert F Vec project D B q other vector ≡ some done =
                rw (e, insert) refl in
              subst (IsDeleted id) (some-injective done q' (sym returned ∙ ran)) (
                ap (λ c. find ℕ_discrete id c.deleted_ids)
                  (stale-shards _ vector
                    ∙ (catch_up-SameShards F Vec project D B
                        (record q { shards = r.0; backend = backend })).shards)
                ∙ ap (find ℕ_discrete id) left
                ∙ find-erase ℕ_discrete other id q.shards.deleted_ids
                ∙ if_neg (ℕ_discrete other id) n _ _
                ∙ h)
        ]

  abbrev pub run : List (Write Vec) → Q → Option Q
  run [] q = some q
  run (inserted id vector ∷ ws) q = do q' ← insert F Vec project D B q id vector; run ws q'
  run (removed id vector ∷ ws) q = run ws (remove F Vec project D B q id vector)

  abbrev pub Spares : ℕ → Write Vec → Type 0
  Spares id (inserted other vector) = other ≢ id
  Spares id (removed other vector) = Unit

  run-IsDeleted :
      (id : ℕ) (ws : List (Write Vec)) (q q' : Q)
      → All (Spares id) ws
      → run ws q ≡ some q'
      → IsDeleted id q
      → IsDeleted id q'
  run-IsDeleted id [] q q' s ran h = subst (IsDeleted id) (some-injective q q' ran) h
  run-IsDeleted id (inserted other vector ∷ ws) q q' s ran h =
      elim (Option-cases (insert F Vec project D B q other vector)) [
        | inl e ↦ absurd (none-ne-some _ (sym (ap (λ o. o >>= run ws) e) ∙ ran))
        | inr (next, e) ↦
            run-IsDeleted id ws next q' s.1 (sym (ap (λ o. o >>= run ws) e) ∙ ran)
              (insert_other-IsDeleted id other vector q next s.0 e h)
      ]
  run-IsDeleted id (removed other vector ∷ ws) q q' s ran h =
      run-IsDeleted id ws _ q' s.1 ran (remove_other-IsDeleted id other vector q h)

  -- After an id is removed, and any writes after it that do not insert it again, an answer that has
  -- its tag among the first K is not live; the writes do not fault, K tags are written and the id
  -- fits in 32 bits.
  pub remove-not_live :
      (id : ℕ) (vector : Option Vec) (ws : List (Write Vec)) (q q' : Q) (tags : List ℕ)
      (j K num_results : ℕ)
      → All (Spares id) ws
      → run ws (remove F Vec project D B q id vector) ≡ some q'
      → id < 2 ^ 32
      → K ≤ length tags
      → j < K
      → get_elem? tags j ≡ some (mem_tag_of Vec D id)
      → has_k_live_results Vec D q'.shards K (some tags) num_results ≡ some false
  remove-not_live id vector ws q q' tags j K num_results s ran b len l e =
      elim (has_k_live_results-IsLive Vec D q'.shards K tags num_results len) [
        | inl a ↦ absurd (
            not_live id q'.shards tags j K
              (run-IsDeleted id ws _ q' s ran (remove-IsDeleted id vector q)) b e l a.2)
        | inr a ↦ a.0
      ]
