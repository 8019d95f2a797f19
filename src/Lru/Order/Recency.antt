-- ===== src/Lru/Order/Recency.antt =====
-- The order of include/qvcache/lru_cache.h as a list of tags: moving a tag to the front.
use qvcache.Common.{
  ℕ, zero, suc, ◌≤◌, ◌<◌, ite, List, [], ◌∷◌, ◌++◌, none, some, find, length, back, pop_back, take,
  All, ◌≡◌, refl, ap, arith, if_pos, if_neg,
}
use qvcache.Lru.{Node, unlink, tags}
use qvcache.Lru.Invariant.{Distinct, tag_at-find}

take-take {ℓ} : {A : Type ℓ} (n : ℕ) (xs : List A) → take n (take n xs) ≡ take n xs
take-take zero xs = refl
take-take (suc n) [] = refl
take-take (suc n) (x ∷ xs) = ap (◌∷◌ x) (take-take n xs)

module _ {A : Type 0} (dec : Discrete A) where
  -- The list without the first occurrence of a tag.
  unfoldable pub remove : A → List A → List A
  remove t [] = []
  remove t (x ∷ xs) = ite (dec x t) xs (x ∷ remove t xs)

  pub All-remove : (P : A → Type 0) (t : A) (xs : List A) → All P xs → All P (remove t xs)
  unfolding remove
  All-remove P t [] h = tt
  All-remove P t (x ∷ xs) h = elim (dec x t) [
    | yes e ↦ rw (if_pos (dec x t) e xs (x ∷ remove t xs)) h.1
    | no n ↦ rw (if_neg (dec x t) n xs (x ∷ remove t xs)) (h.0, All-remove P t xs h.1)
  ]

  pub remove_absent :
      (t : A) (ns : List (Node A)) → find dec t ns ≡ none → remove t (tags ns) ≡ tags ns
  unfolding remove find
  remove_absent t [] h = refl
  remove_absent t (n ∷ ns) h = ground (arith, remove_absent t ns)

  pub tags-unlink :
      (t : A) (a n : ℕ) (ns : List (Node A))
      → Distinct dec n ns
      → find dec t ns ≡ some a
      → tags (unlink a ns) ≡ remove t (tags ns)
  unfolding remove find unlink
  tags-unlink t a n [] d h = cc
  tags-unlink t a n ((s, b) ∷ ns) d h =
      ground (arith, tags-unlink t a n ns d.3, tag_at-find dec t a n ns d.3)

  length-remove : (t : A) (xs : List A) → length (remove t xs) ≤ length xs
  unfolding remove
  length-remove t [] = omega arith
  length-remove t (x ∷ xs) = ground (arith, length-remove t xs)

  take-remove-take :
      (n : ℕ) (t : A) (xs : List A) → take n (remove t (take (suc n) xs)) ≡ take n (remove t xs)
  unfolding remove
  take-remove-take zero t xs = refl
  take-remove-take (suc n) t [] = refl
  take-remove-take (suc n) t (x ∷ xs) = elim (dec x t) [
    | yes p ↦ rw (if_pos _ p, if_pos _ p) (take-take (suc n) xs)
    | no p ↦ rw (if_neg _ p, if_neg _ p) (ap (◌∷◌ x) (take-remove-take n t xs))
  ]

  -- To move a tag to the front and keep `n`, the first `n` tags are all that matter.
  pub take-touch-take :
      (n : ℕ) (t : A) (xs : List A) → take n (t ∷ remove t (take n xs)) ≡ take n (t ∷ remove t xs)
  take-touch-take zero t xs = refl
  take-touch-take (suc n) t xs = ap (◌∷◌ t) (take-remove-take n t xs)

pub tags-pop_back : {A : Type 0} (ns : List (Node A)) → tags (pop_back ns) ≡ pop_back (tags ns)
tags-pop_back [] = refl
tags-pop_back (n ∷ []) = refl
tags-pop_back (n ∷ m ∷ ns) = ap (◌∷◌ n.0) (tags-pop_back (m ∷ ns))

pub length-tags : {A : Type 0} (ns : List (Node A)) → length (tags ns) ≡ length ns
length-tags [] = refl
length-tags (n ∷ ns) = ap suc (length-tags ns)

-- A list with room at its back ends in a node.
pub back-some {ℓ} : {A : Type ℓ} (xs : List A) → 0 < length xs → (x : A) × (back xs ≡ some x)
back-some [] h = absurd (omega arith)
back-some (x ∷ []) h = (x, refl)
back-some (x ∷ y ∷ ys) h = back-some (y ∷ ys) (omega arith)

pub pop_back-append-back {ℓ} :
    {A : Type ℓ} (xs : List A) (x : A) → back xs ≡ some x → xs ≡ pop_back xs ++ x ∷ []
pop_back-append-back [] x h = cc
pop_back-append-back (y ∷ []) x h = ground arith
pop_back-append-back (y ∷ z ∷ ys) x h = ap (◌∷◌ y) (pop_back-append-back (z ∷ ys) x h)

pub back-tags :
    {A : Type 0} (ns : List (Node A)) (n : Node A) → back ns ≡ some n → back (tags ns) ≡ some n.0
back-tags [] n h = cc
back-tags (m ∷ []) n h = ground arith
back-tags (m ∷ k ∷ ns) n h = back-tags (k ∷ ns) n h
