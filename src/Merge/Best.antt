-- ===== src/Merge/Best.antt =====
-- The map that `merge_and_rerank_results` of include/qvcache/qvcache.h fills, over all the results
-- of the searched indexes in their order.
use qvcache.Common.{
  ℕ, List, [], ◌∷◌, true, false, Option, none, some, find, put, All-put, DistinctKeys,
  put-DistinctKeys, find-put, find-put_self, All, Any, ◌≡◌, refl, Bool-cases, Option-cases, inl,
  inr, ℕ_discrete, get_elem?, sym, subst,
}
use qvcache.Floats.{Floats}
use qvcache.Merge.{MergedResult, BestMap, AllResults, absorb, scan_results, scan_indexes}
use qvcache.Merge.Order.{All-mono}
use mathlib.Core.Logic.{if_pos, if_neg}

module _ (F : Floats) (Ptr : Type 0) where
  open F use {Real, lt_real}

  abbrev pub Res : Type 0
  Res = MergedResult F Ptr

  abbrev pub IsLeast : Res → Option Res → Type 0
  IsLeast r none = ⊥
  IsLeast r (some b) = lt_real r.distance b.distance ≡ false

  pub record IsBest (done : List Res) (best : BestMap F Ptr) : Type 0 where
    pub own : All (λ e. e.0 ≡ e.1.tag) best
    pub distinct : DistinctKeys ℕ_discrete best
    pub from : All (λ e. Any (λ r. r ≡ e.1) done) best
    pub least : (r : Res) → Any (λ x. x ≡ r) done → IsLeast r (find ℕ_discrete r.tag best)

  pub empty-IsBest : IsBest [] []
  empty-IsBest = record { own = tt; distinct = tt; from = tt; least = λ r a. elim a [ ] }

  -- The results of one index, the last first, before the earlier ones.
  abbrev pub read_results : ℕ → List ℕ → List Real → List Ptr → List Res → List Res
  read_results i [] ds ps done = done
  read_results i (t ∷ ts) [] ps done = done
  read_results i (t ∷ ts) (d ∷ ds) [] done =
      read_results i ts ds []
        (record { tag = t; distance = d; vector_ptr = none; source_index_id = i } ∷ done)
  read_results i (t ∷ ts) (d ∷ ds) (p ∷ ps) done =
      read_results i ts ds ps
        (record { tag = t; distance = d; vector_ptr = some p; source_index_id = i } ∷ done)

  abbrev pub read_index :
      ℕ → Option (List ℕ) → Option (List Real) → Option (List Ptr) → List Res → List Res
  read_index i (some ts) (some ds) (some ps) done = read_results i ts ds ps done
  read_index i none ds ps done = done
  read_index i (some ts) none ps done = done
  read_index i (some ts) (some ds) none done = done

  -- The results of the listed indexes that exist.
  abbrev pub read_indexes : AllResults F Ptr → List ℕ → List Res → List Res
  read_indexes all [] done = done
  read_indexes all (i ∷ ids) done = read_indexes all ids (
      read_index i (get_elem? all.all_tags i) (get_elem? all.all_dists i) (get_elem? all.all_res i)
        done)

  module _ (asym : (a b : Real) → lt_real a b ≡ true → lt_real b a ≡ false)
      (trans : (a b c : Real)
        → lt_real b a ≡ false
        → lt_real c b ≡ false
        → lt_real c a ≡ false) where
    irrefl : (a : Real) → lt_real a a ≡ false
    irrefl a = elim (Bool-cases (lt_real a a)) [ inl e ↦ asym a a e | inr e ↦ e ]

    put-IsLeast :
        (r : Res) (done : List Res) (best : BestMap F Ptr) (x : Res)
        → ((x : Res)
            → x.tag ≡ r.tag
            → IsLeast x (find ℕ_discrete r.tag best)
            → lt_real x.distance r.distance ≡ false)
        → IsBest done best
        → Any (λ y. y ≡ x) (r ∷ done)
        → IsLeast x (find ℕ_discrete x.tag (put ℕ_discrete r.tag r best))
    put-IsLeast r done best x worse h (inl e) =
        subst (λ y. IsLeast y (find ℕ_discrete y.tag (put ℕ_discrete r.tag r best))) e
          (rw (find-put_self ℕ_discrete r.tag r best) (irrefl r.distance))
    put-IsLeast r done best x worse h (inr a) = elim (ℕ_discrete r.tag x.tag) [
      | yes q ↦
          rw (find-put ℕ_discrete r.tag x.tag r best, if_pos _ q)
            (worse x (sym q)
              (subst (λ t. IsLeast x (find ℕ_discrete t best)) (sym q) (h.least x a)))
      | no n ↦ rw (find-put ℕ_discrete r.tag x.tag r best, if_neg _ n) (h.least x a)
    ]

    put-IsBest :
        (r : Res) (done : List Res) (best : BestMap F Ptr)
        → ((x : Res)
            → x.tag ≡ r.tag
            → IsLeast x (find ℕ_discrete r.tag best)
            → lt_real x.distance r.distance ≡ false)
        → IsBest done best
        → IsBest (r ∷ done) (put ℕ_discrete r.tag r best)
    put-IsBest r done best worse h = record {
      own = All-put ℕ_discrete _ r.tag r best refl h.own;
      distinct = put-DistinctKeys ℕ_discrete r.tag r best h.distinct;
      from = All-put ℕ_discrete _ r.tag r best (inl refl) (All-mono best (λ e a. inr a) h.from);
      least = λ x. put-IsLeast r done best x worse h;
    }

    keep-IsLeast :
        (r : Res) (done : List Res) (best : BestMap F Ptr) (b x : Res)
        → find ℕ_discrete r.tag best ≡ some b
        → lt_real r.distance b.distance ≡ false
        → IsBest done best
        → Any (λ y. y ≡ x) (r ∷ done)
        → IsLeast x (find ℕ_discrete x.tag best)
    keep-IsLeast r done best b x e c h (inl q) =
        subst (λ y. IsLeast y (find ℕ_discrete y.tag best)) q (subst (IsLeast r) (sym e) c)
    keep-IsLeast r done best b x e c h (inr a) = h.least x a

    absorb-IsBest :
        (r : Res) (done : List Res) (best : BestMap F Ptr)
        → IsBest done best
        → IsBest (r ∷ done) (absorb F Ptr r best)
    unfolding absorb
    absorb-IsBest r done best h = elim (Option-cases (find ℕ_discrete r.tag best)) [
      | inl e ↦ rw (e, absorb) (put-IsBest r done best (λ x q l. absurd (subst (IsLeast x) e l)) h)
      | inr (b, e) ↦ elim (Bool-cases (lt_real r.distance b.distance)) [
        | inl c ↦
            rw (e, absorb, c)
              (put-IsBest r done best
                (λ x q l.
                  trans r.distance b.distance x.distance (asym _ _ c) (subst (IsLeast x) e l))
                h)
        | inr c ↦
            rw (e, absorb, c)
              record {
                own = h.own;
                distinct = h.distinct;
                from = All-mono best (λ e a. inr a) h.from;
                least = λ x. keep-IsLeast r done best b x e c h;
              }
      ]
    ]

    scan_results-IsBest :
        (i : ℕ) (ts : List ℕ) (ds : List Real) (ps : List Ptr) (done : List Res)
        (best : BestMap F Ptr)
        → IsBest done best
        → IsBest (read_results i ts ds ps done) (scan_results F Ptr i ts ds ps best)
    unfolding scan_results
    scan_results-IsBest i [] ds ps done best h = h
    scan_results-IsBest i (t ∷ ts) [] ps done best h = h
    scan_results-IsBest i (t ∷ ts) (d ∷ ds) [] done best h =
        scan_results-IsBest i ts ds [] _ _ (absorb-IsBest _ done best h)
    scan_results-IsBest i (t ∷ ts) (d ∷ ds) (p ∷ ps) done best h =
        scan_results-IsBest i ts ds ps _ _ (absorb-IsBest _ done best h)

    scan_index-IsBest :
        (i : ℕ) (ts : Option (List ℕ)) (ds : Option (List Real)) (ps : Option (List Ptr))
        (done : List Res) (best : BestMap F Ptr)
        → IsBest done best
        → IsBest (read_index i ts ds ps done) (elim ts [
          | none ↦ best
          | some tags ↦ elim ds [
            | none ↦ best
            | some dists ↦ elim ps [
              | none ↦ best
              | some res ↦ scan_results F Ptr i tags dists res best
            ]
          ]
        ])
    scan_index-IsBest i none ds ps done best h = h
    scan_index-IsBest i (some ts) none ps done best h = h
    scan_index-IsBest i (some ts) (some ds) none done best h = h
    scan_index-IsBest i (some ts) (some ds) (some ps) done best h =
        scan_results-IsBest i ts ds ps done best h

    pub scan_indexes-IsBest :
        (all : AllResults F Ptr) (ids : List ℕ) (done : List Res) (best : BestMap F Ptr)
        → IsBest done best
        → IsBest (read_indexes all ids done) (scan_indexes F Ptr all ids best)
    unfolding scan_indexes
    scan_indexes-IsBest all [] done best h = h
    scan_indexes-IsBest all (i ∷ ids) done best h = scan_indexes-IsBest all ids _ _ (
        scan_index-IsBest i (get_elem? all.all_tags i) (get_elem? all.all_dists i)
          (get_elem? all.all_res i) done best h)
