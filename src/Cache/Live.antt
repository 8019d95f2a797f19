-- ===== src/Cache/Live.antt =====
-- Which answers of a cache search count, `has_k_live_results` of include/qvcache/qvcache.h.
use qvcache.Common.{
  ℕ, zero, suc, ◌-◌, ◌<◌, ◌≤◌, List, [], ◌∷◌, Bool, true, false, Option, none, some, find, length,
  take, All, ◌≡◌, ◌≢◌, refl, arith, Option-cases, ◌⊎◌, inl, inr, ℕ_discrete, dec_lt, subst, sym,
  ◌∙◌,
}
use mathlib.Core.Option.{none-ne-some}
use qvcache.Cache.{Diskann, Cache, tag_max, is_deleted_id, live_loop, has_k_live_results}

module _ (Vec : Type 0) (D : Diskann Vec) where
  -- A tag that a search may answer with: set, and its id not deleted.
  abbrev pub IsLive : Cache Vec D → ℕ → Type 0
  IsLive c tag = (tag ≢ 0) × (tag ≢ tag_max) × (find ℕ_discrete (tag - 1) c.deleted_ids ≡ none)

  -- What the loop answers, and when.
  abbrev pub Answers : Cache Vec D → List ℕ → Option Bool → Type 0
  Answers c tags r =
      ((r ≡ some true) × All (IsLive c) tags) ⊎ ((r ≡ some false) × (All (IsLive c) tags → ⊥))

  no_more :
      (c : Cache Vec D) (tag : ℕ) (tags : List ℕ) (r : Option Bool)
      → Answers c tags r
      → IsLive c tag
      → Answers c (tag ∷ tags) r
  no_more c tag tags r (inl a) l = inl (a.0, (l, a.1))
  no_more c tag tags r (inr a) l = inr (a.0, λ h. a.1 h.1)

  live_loop-Answers :
      (c : Cache Vec D) (k : ℕ) (tags : List ℕ)
      → k ≤ length tags
      → Answers c (take k tags) (live_loop Vec D c k tags)
  unfolding live_loop is_deleted_id
  live_loop-Answers c zero tags h = inl (refl, tt)
  live_loop-Answers c (suc k) [] h = absurd (omega arith)
  live_loop-Answers c (suc k) (tag ∷ tags) h = elim (ℕ_discrete tag 0) [
    | yes z ↦ inr (ground arith, λ l. l.0.0 z)
    | no z ↦ elim (ℕ_discrete tag tag_max) [
      | yes m ↦ inr (ground arith, λ l. l.0.1 m)
      | no m ↦ elim (Option-cases (find ℕ_discrete (tag - 1) c.deleted_ids)) [
        | inl e ↦
            let step : live_loop Vec D c (suc k) (tag ∷ tags) ≡ live_loop Vec D c k tags =
              ground (arith, e) in
            subst (Answers c (tag ∷ take k tags)) (sym step)
              (no_more c tag (take k tags) _ (live_loop-Answers c k tags (omega arith)) (z, m, e))
        | inr (u, e) ↦ inr (ground (arith, e), λ l. absurd (none-ne-some _ (sym l.0.2 ∙ e)))
      ]
    ]
  ]

  -- With K tags written, the test never faults, and it holds exactly if the search found K results
  -- and each of the first K tags is neither 0 nor the largest and not of a deleted id.
  pub has_k_live_results-IsLive :
      (c : Cache Vec D) (K : ℕ) (tags : List ℕ) (num_results : ℕ)
      → K ≤ length tags
      → ((has_k_live_results Vec D c K (some tags) num_results ≡ some true)
          × (K ≤ num_results)
          × All (IsLive c) (take K tags))
        ⊎ ((has_k_live_results Vec D c K (some tags) num_results ≡ some false)
            × ((num_results < K) ⊎ (All (IsLive c) (take K tags) → ⊥)))
  unfolding has_k_live_results
  has_k_live_results-IsLive c K tags num_results h = elim (dec_lt num_results K) [
    | yes few ↦ inr (ground arith, inl few)
    | no n ↦
        let step : has_k_live_results Vec D c K (some tags) num_results ≡ live_loop Vec D c K tags =
          ground arith in
        elim (live_loop-Answers c K tags h) [
          | inl a ↦ inl (step ∙ a.0, omega arith, a.1)
          | inr a ↦ inr (step ∙ a.0, inr a.1)
        ]
  ]
