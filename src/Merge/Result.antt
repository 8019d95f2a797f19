-- ===== src/Merge/Result.antt =====
-- The merged result of `merge_and_rerank_results` of include/qvcache/qvcache.h.
use mathlib.Core.Logic.{if_pos, if_neg}
use mathlib.Core.Option.{none-ne-some, some-injective}
use mathlib.Core.List.{Permᴰ}
use qvcache.Common.{
  All-take, ℕ, List, [], ◌∷◌, true, false, none, some, find, DistinctKeys, min, length, take, All,
  Any, ◌≡◌, ◌≢◌, refl, sym, ap, ◌∙◌, subst, ◌⊎◌, inl, inr, ℕ_discrete, map, Option-cases, ◌≤◌,
}
use qvcache.Floats.{Floats}
use qvcache.Merge.{
  BestMap, AllResults, closer, scan_indexes, sort, ranked, merge_and_rerank_results,
}
use qvcache.Merge.Order.{
  All-mono, All-Permᴰ, Any-Permᴰ, Pairs, Pairs-take, Pairs-Permᴰ, length-take-min, IsSorted,
  sort-Permᴰ, sort-IsSorted, take-min-IsSorted,
}
use qvcache.Merge.Best.{Res, IsLeast, IsBest, empty-IsBest, read_indexes, scan_indexes-IsBest}

module _ (F : Floats) (Ptr : Type 0) where
  open F use {Real, lt_real}

  -- A candidate: one of the results, with no closer one of the same tag.
  abbrev pub IsCandidate : List (Res F Ptr) → Res F Ptr → Type 0
  IsCandidate done c =
      Any (λ r. r ≡ c) done
      × ((r : Res F Ptr)
          → Any (λ x. x ≡ r) done
          → (r.tag ≢ c.tag) ⊎ (lt_real r.distance c.distance ≡ false))

  abbrev pub NoLess : Res F Ptr → Res F Ptr → Type 0
  NoLess r c = lt_real r.distance c.distance ≡ false

  -- The first K of the candidates: the nearest of each tag, sorted, with nothing nearer left out.
  pub record Merged (done : List (Res F Ptr)) (K : ℕ) (merged : List (Res F Ptr)) : Type 0 where
    pub sorted : IsSorted (closer F Ptr) merged
    pub distinct : Pairs (λ x y. x.tag ≢ y.tag) merged
    pub candidates : All (IsCandidate done) merged
    pub nearest :
        (r : Res F Ptr)
        → Any (λ x. x ≡ r) done
        → Any (λ c. (c.tag ≡ r.tag) × NoLess r c) merged
          ⊎ ((length merged ≡ K) × All (NoLess r) merged)

  values : BestMap F Ptr → List (Res F Ptr)
  values = map (λ e. e.1)

  found-tags :
      (m : BestMap F Ptr)
      → DistinctKeys ℕ_discrete m
      → All (λ e. find ℕ_discrete e.0 m ≡ some e.1) m
  unfolding find
  found-tags [] d = tt
  found-tags ((k, v) ∷ m) d = (
    if_pos (ℕ_discrete k k) refl _ _,
    All-mono m (λ e f. kept e f (ℕ_discrete k e.0)) (found-tags m d.1),
  )
    where
      kept :
          (e : ℕ × Res F Ptr)
          → find ℕ_discrete e.0 m ≡ some e.1
          → Dec (k ≡ e.0)
          → find ℕ_discrete e.0 ((k, v) ∷ m) ≡ some e.1
      kept e f (yes q) =
          absurd (none-ne-some _ (sym (subst (λ i. find ℕ_discrete i m ≡ none) q d.0) ∙ f))
      kept e f (no n) = if_neg (ℕ_discrete k e.0) n _ _ ∙ f

  new_tag :
      (t : ℕ) (m : BestMap F Ptr)
      → All (λ e. e.0 ≡ e.1.tag) m
      → find ℕ_discrete t m ≡ none
      → All (λ y. t ≢ y.tag) (map (λ e. e.1) m)
  unfolding find
  new_tag t [] own e = tt
  new_tag t ((j, w) ∷ m) own e = elim (ℕ_discrete j t) [
    | yes q ↦ absurd (none-ne-some _ (sym e ∙ if_pos (ℕ_discrete j t) q _ _))
    | no n ↦ (λ q. n (own.0 ∙ sym q), new_tag t m own.1 (sym (if_neg (ℕ_discrete j t) n _ _) ∙ e))
  ]

  values-distinct :
      (m : BestMap F Ptr)
      → All (λ e. e.0 ≡ e.1.tag) m
      → DistinctKeys ℕ_discrete m
      → Pairs (λ x y. x.tag ≢ y.tag) (map (λ e. e.1) m)
  values-distinct [] own d = tt
  values-distinct ((k, v) ∷ m) own d = (
    new_tag v.tag m own.1 (subst (λ t. find ℕ_discrete t m ≡ none) own.0 d.0),
    values-distinct m own.1 d.1,
  )

  values-found :
      (P : Res F Ptr → Type 0) (k : ℕ) (v : Res F Ptr) (m : BestMap F Ptr)
      → find ℕ_discrete k m ≡ some v
      → All (λ e. e.0 ≡ e.1.tag) m
      → (k ≡ v.tag → P v)
      → Any P (map (λ e. e.1) m)
  unfolding find
  values-found P k v [] e own p = absurd (none-ne-some _ e)
  values-found P k v ((j, w) ∷ m) e own p = elim (ℕ_discrete j k) [
    | yes q ↦
        let same : w ≡ v = some-injective w v (sym (if_pos (ℕ_discrete j k) q _ _) ∙ e) in
        inl (subst P (sym same) (p (sym q ∙ own.0 ∙ ap (λ x. x.tag) same)))
    | no n ↦ inr (values-found P k v m (sym (if_neg (ℕ_discrete j k) n _ _) ∙ e) own.1 p)
  ]

  values-candidates :
      (done : List (Res F Ptr)) (best m : BestMap F Ptr)
      → ((r : Res F Ptr) → Any (λ x. x ≡ r) done → IsLeast F Ptr r (find ℕ_discrete r.tag best))
      → All (λ e. e.0 ≡ e.1.tag) m
      → All (λ e. Any (λ r. r ≡ e.1) done) m
      → All (λ e. find ℕ_discrete e.0 best ≡ some e.1) m
      → All (IsCandidate done) (map (λ e. e.1) m)
  values-candidates done best [] least own from found = tt
  values-candidates done best ((k, v) ∷ m) least own from found = (
    (
      from.0,
      λ r a. elim (ℕ_discrete r.tag v.tag) [
        | no n ↦ inl n
        | yes q ↦ inr (
            subst (IsLeast F Ptr r) (ap (λ t. find ℕ_discrete t best) (q ∙ sym own.0) ∙ found.0)
              (least r a))
      ],
    ),
    values-candidates done best m least own.1 from.1 found.1,
  )

  has_tag :
      (done : List (Res F Ptr)) (best : BestMap F Ptr) (r : Res F Ptr)
      → IsBest F Ptr done best
      → Any (λ x. x ≡ r) done
      → Any (λ c. (c.tag ≡ r.tag) × NoLess r c) (map (λ e. e.1) best)
  has_tag done best r h a = elim (Option-cases (find ℕ_discrete r.tag best)) [
    | inl e ↦ absurd (subst (IsLeast F Ptr r) e (h.least r a))
    | inr (b, e) ↦
        values-found _ r.tag b best e h.own (λ q. (sym q, subst (IsLeast F Ptr r) e (h.least r a)))
  ]

  module _ (asym : (a b : Real) → lt_real a b ≡ true → lt_real b a ≡ false)
      (trans : (a b c : Real) → lt_real b a ≡ false → lt_real c b ≡ false → lt_real c a ≡ false)
      (arrange : List (Res F Ptr) → List (Res F Ptr))
      (arrange-Permᴰ : (l : List (Res F Ptr)) → Permᴰ l (arrange l)) where
    take-min-Merged :
        (done : List (Res F Ptr)) (best : BestMap F Ptr) (K : ℕ)
        → IsBest F Ptr done best
        → let l = sort (closer F Ptr) (arrange (map (λ e. e.1) best)) in
          Merged done K (take (min K (length l)) l)
    unfolding closer
    take-min-Merged done best K h =
        let P : Permᴰ (map (λ e. e.1) best) (sort (closer F Ptr) (arrange (map (λ e. e.1) best))) =
          Permᴰ.trans (arrange-Permᴰ _) (sort-Permᴰ (closer F Ptr) _) in
        record {
          sorted = Pairs-take _ _ _ (
              sort-IsSorted (closer F Ptr) _ (λ a b. asym a.distance b.distance)
                (λ a b c. trans a.distance b.distance c.distance));
          distinct =
              Pairs-take _ _ _
                (Pairs-Permᴰ _ (λ a b n q. n (sym q)) P (values-distinct best h.own h.distinct));
          candidates = All-take _ _ _ (
              All-Permᴰ _ P (
                values-candidates done best best h.least h.own h.from
                  (found-tags best h.distinct)));
          nearest = λ r a.
              take-min-IsSorted (closer F Ptr) (λ c. (c.tag ≡ r.tag) × NoLess r c) (NoLess r) K _
                (λ x y p q. trans y.distance x.distance r.distance q p.1)
                (sort-IsSorted (closer F Ptr) _ (λ a b. asym a.distance b.distance)
                  (λ a b c. trans a.distance b.distance c.distance))
                (Any-Permᴰ _ P (has_tag done best r h a));
        }

    -- The merge returns at most K results of distinct tags, by distance. Each is one of the results
    -- read, and none read with its tag is closer. A result read has its tag among them, at a
    -- distance that is no farther, or K are returned and it is closer than none of them. The
    -- comparison is asymmetric and its complement transitive; the map is read in any order.
    pub merge_and_rerank_results-Merged :
        (arrange_counts : List (ℕ × ℕ) → List (ℕ × ℕ)) (all : AllResults F Ptr) (ids : List ℕ)
        (K : ℕ)
        → let merged = (merge_and_rerank_results F Ptr arrange arrange_counts all ids K).0 in
          (length merged ≤ K) × Merged (read_indexes F Ptr all ids []) K merged
    unfolding merge_and_rerank_results ranked
    merge_and_rerank_results-Merged arrange_counts all ids K = (
      length-take-min K _,
      take-min-Merged _ (scan_indexes F Ptr all ids []) K
          (scan_indexes-IsBest F Ptr asym trans all ids [] [] (empty-IsBest F Ptr)),
    )
