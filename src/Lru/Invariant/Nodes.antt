-- ===== src/Lru/Invariant/Nodes.antt =====
-- The list nodes of include/qvcache/lru_cache.h: what unlinking, popping and allocating change.
use qvcache.Common.{
  ℕ, suc, ◌≤◌, ◌<◌, ite, List, [], ◌∷◌, none, some, find, length, back, pop_back, ◌≡◌, ◌≢◌, refl,
  ap, arith,
}
use qvcache.Lru.{Node, tag_at, unlink}

-- No tag stands twice, no address stands twice, and every address is below `n`.
abbrev pub Distinct : {A : Type 0} → Discrete A → ℕ → List (Node A) → Type 0
Distinct dec n [] = Unit
Distinct dec n ((t, a) ∷ ns) =
    (find dec t ns ≡ none) × (tag_at a ns ≡ none) × (a < n) × Distinct dec n ns

module _ {A : Type 0} (dec : Discrete A) where
  -- The node of a tag is the node at its address.
  pub tag_at-find :
      (t : A) (a n : ℕ) (ns : List (Node A))
      → Distinct dec n ns
      → find dec t ns ≡ some a
      → tag_at a ns ≡ some t
  unfolding find tag_at
  tag_at-find t a n [] d h = cc
  tag_at-find t a n ((s, b) ∷ ns) d h = ground (arith, tag_at-find t a n ns d.3)

  -- To unlink the node of a tag drops that tag.
  pub find-unlink :
      (t q : A) (a n : ℕ) (ns : List (Node A))
      → Distinct dec n ns
      → find dec t ns ≡ some a
      → find dec q (unlink a ns) ≡ ite (dec t q) none (find dec q ns)
  unfolding find unlink tag_at
  find-unlink t q a n [] d h = cc
  find-unlink t q a n ((s, b) ∷ ns) d h =
      ground (arith, tag_at-find t a n ns d.3, find-unlink t q a n ns d.3)

  find-unlink-none :
      (t : A) (a : ℕ) (ns : List (Node A)) → find dec t ns ≡ none → find dec t (unlink a ns) ≡ none
  unfolding find unlink
  find-unlink-none t a [] h = refl
  find-unlink-none t a ((s, b) ∷ ns) h = ground (arith, find-unlink-none t a ns)

  tag_at-unlink-none :
      (b a : ℕ) (ns : List (Node A)) → tag_at b ns ≡ none → tag_at b (unlink a ns) ≡ none
  unfolding tag_at unlink
  tag_at-unlink-none b a [] h = refl
  tag_at-unlink-none b a ((s, x) ∷ ns) h = ground (arith, tag_at-unlink-none b a ns)

  pub tag_at-unlink_self :
      (a n : ℕ) (ns : List (Node A)) → Distinct dec n ns → tag_at a (unlink a ns) ≡ none
  unfolding tag_at unlink
  tag_at-unlink_self a n [] d = refl
  tag_at-unlink_self a n ((s, x) ∷ ns) d = ground (arith, tag_at-unlink_self a n ns d.3)

  pub unlink-Distinct :
      (a n : ℕ) (ns : List (Node A)) → Distinct dec n ns → Distinct dec n (unlink a ns)
  unfolding unlink
  unlink-Distinct a n [] d = tt
  unlink-Distinct a n ((s, x) ∷ ns) d = ground (
    arith,
    unlink-Distinct a n ns d.3,
    find-unlink-none s a ns d.0,
    tag_at-unlink-none x a ns d.1,
  )

  pub length-unlink :
      (a : ℕ) (t : A) (ns : List (Node A))
      → tag_at a ns ≡ some t
      → suc (length (unlink a ns)) ≡ length ns
  unfolding tag_at unlink
  length-unlink a t [] h = cc
  length-unlink a t ((s, x) ∷ ns) h = ground (arith, length-unlink a t ns)

  pub Distinct-suc : (n : ℕ) (ns : List (Node A)) → Distinct dec n ns → Distinct dec (suc n) ns
  Distinct-suc n [] d = tt
  Distinct-suc n ((s, x) ∷ ns) d = (d.0, d.1, omega arith, Distinct-suc n ns d.3)

  pub Distinct-below :
      (a n : ℕ) (t : A) (ns : List (Node A)) → Distinct dec n ns → tag_at a ns ≡ some t → a < n
  unfolding tag_at
  Distinct-below a n t [] d h = cc
  Distinct-below a n t ((s, x) ∷ ns) d h = ground (arith, Distinct-below a n t ns d.3)

  pub Distinct-fresh :
      (a n : ℕ) (ns : List (Node A)) → Distinct dec n ns → n ≤ a → tag_at a ns ≡ none
  unfolding tag_at
  Distinct-fresh a n [] d h = refl
  Distinct-fresh a n ((s, x) ∷ ns) d h = ground (arith, Distinct-fresh a n ns d.3)

  find-pop_back-none :
      (t : A) (ns : List (Node A)) → find dec t ns ≡ none → find dec t (pop_back ns) ≡ none
  unfolding find
  find-pop_back-none t [] h = refl
  find-pop_back-none t (x ∷ []) h = refl
  find-pop_back-none t ((s, x) ∷ y ∷ ns) h = ground (arith, find-pop_back-none t (y ∷ ns))

  tag_at-pop_back-none :
      (b : ℕ) (ns : List (Node A)) → tag_at b ns ≡ none → tag_at b (pop_back ns) ≡ none
  unfolding tag_at
  tag_at-pop_back-none b [] h = refl
  tag_at-pop_back-none b (x ∷ []) h = refl
  tag_at-pop_back-none b ((s, x) ∷ y ∷ ns) h = ground (arith, tag_at-pop_back-none b (y ∷ ns))

  pub pop_back-Distinct :
      (n : ℕ) (ns : List (Node A)) → Distinct dec n ns → Distinct dec n (pop_back ns)
  pop_back-Distinct n [] d = tt
  pop_back-Distinct n (x ∷ []) d = tt
  pop_back-Distinct n ((s, x) ∷ y ∷ ns) d = (
    find-pop_back-none s (y ∷ ns) d.0,
    tag_at-pop_back-none x (y ∷ ns) d.1,
    d.2,
    pop_back-Distinct n (y ∷ ns) d.3,
  )

  find-back : (m : Node A) (ns : List (Node A)) → back ns ≡ some m → find dec m.0 ns ≢ none
  unfolding find
  find-back m [] e = cc
  find-back m (x ∷ []) e = ground arith
  find-back m (x ∷ y ∷ ns) e = ground (arith, find-back m (y ∷ ns) e)

  pub find-pop_back :
      (m : Node A) (q : A) (n : ℕ) (ns : List (Node A))
      → Distinct dec n ns
      → back ns ≡ some m
      → find dec q (pop_back ns) ≡ ite (dec m.0 q) none (find dec q ns)
  unfolding find
  find-pop_back m q n [] d e = cc
  find-pop_back m q n (x ∷ []) d e = ground arith
  find-pop_back m q n (x ∷ y ∷ ns) d e =
      ground (arith, find-pop_back m q n (y ∷ ns) d.3 e, find-back m (y ∷ ns) e)

pub length-pop_back {ℓ} : {A : Type ℓ} (xs : List A) → length (pop_back xs) ≤ length xs
length-pop_back [] = omega arith
length-pop_back (x ∷ []) = omega arith
length-pop_back (x ∷ y ∷ ys) = omega (arith, length-pop_back (y ∷ ys))

pub length-pop_back_lem {ℓ} :
    {A : Type ℓ} (xs : List A) → 0 < length xs → suc (length (pop_back xs)) ≡ length xs
length-pop_back_lem [] h = absurd (omega arith)
length-pop_back_lem (x ∷ []) h = refl
length-pop_back_lem (x ∷ y ∷ ys) h = ap suc (length-pop_back_lem (y ∷ ys) (omega arith))
