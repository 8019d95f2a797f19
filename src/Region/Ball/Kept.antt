-- ===== src/Region/Ball/Kept.antt =====
-- What every visit of the walk of include/qvcache/pca_utils.h keeps, the walk keeps.
use qvcache.Common.{
  ℕ, zero, suc, ◌+◌, ◌-◌, ◌^◌, ◌&&◌, leb, ltb, List, [], ◌∷◌, Option, none, some, subst, Bool-cases,
  Option-cases, inl, inr,
}
use qvcache.Region.Ball.{to_int, rounds, count_loop, try_bucket, walk}

module _ {S : Type 0} (P : S → Type 0) where
  -- The walk overflows, or its state has the property.
  abbrev pub Keeps : Option (List ℕ × S) → Type 0
  Keeps none = Unit
  Keeps (some r) = P r.1

  count_loop-Keeps :
      (n j : ℕ) (body : ℕ → List ℕ × S → Option (List ℕ × S)) (st : List ℕ × S)
      → ((i : ℕ) (st' : List ℕ × S) → P st'.1 → Keeps (body i st'))
      → P st.1
      → Keeps (count_loop n j body st)
  unfolding count_loop
  count_loop-Keeps zero j body st h p = p
  count_loop-Keeps (suc n) j body st h p = elim (Option-cases (body j st)) [
    | inl e ↦ rw (e, count_loop) tt
    | inr (st', e) ↦
        rw (e, count_loop) (count_loop-Keeps n (suc j) body st' h (subst Keeps e (h j st p)))
  ]

  try_bucket-Keeps :
      (b : ℕ) (deeper : ℕ → List ℕ × S → Option (List ℕ × S)) (i left c j : ℕ) (st : List ℕ × S)
      → ((rest : ℕ) (st' : List ℕ × S) → P st'.1 → Keeps (deeper rest st'))
      → P st.1
      → Keeps (try_bucket b deeper i left c j st)
  unfolding try_bucket
  try_bucket-Keeps b deeper i left c j st h p =
      elim (Bool-cases (leb (2 ^ 31 + to_int left) (c + j))) [
        | inl e ↦ rw (e, try_bucket) tt
        | inr e ↦
            elim (Bool-cases (leb (to_int left) (c + j) && ltb (c + j - to_int left) (to_int b))) [
              | inl f ↦ rw (e, try_bucket, f) (h _ _ p)
              | inr f ↦ rw (e, try_bucket, f) p
            ]
      ]

  pub walk-Keeps :
      (b : ℕ) (visit : List ℕ → S → S) (cs : List ℕ) (i left : ℕ) (st : List ℕ × S)
      → ((k : List ℕ) (s : S) → P s → P (visit k s))
      → P st.1
      → Keeps (walk b visit cs i left st)
  unfolding walk
  walk-Keeps b visit [] i left st h p = h st.0 st.1 p
  walk-Keeps b visit (c ∷ cs) i left st h p = elim (Option-cases (rounds left)) [
    | inl e ↦ rw (e, walk) tt
    | inr (n, e) ↦
        let body = try_bucket b (walk b visit cs (suc i)) i left c in
        let kept =
          count_loop-Keeps n 0 body st
            (λ j st' p'.
              try_bucket-Keeps b (walk b visit cs (suc i)) i left c j st'
                (λ rest st'' p''. walk-Keeps b visit cs (suc i) rest st'' h p'') p')
            p in
        elim (Option-cases (count_loop n 0 body st)) [
          | inl f ↦ rw (e, walk, f) tt
          | inr (r, f) ↦ rw (e, walk, f) (subst Keeps f kept)
        ]
  ]
