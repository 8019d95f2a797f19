-- ===== src/Merge/Order.antt =====
-- The sort of include/qvcache/qvcache.h by a comparison, and what a rearrangement keeps.
use mathlib.Core.List.{Permᴰ}
use mathlib.Core.List.Permᴰ
use qvcache.Common.{
  All-take, ℕ, zero, suc, List, [], ◌∷◌, Bool, true, false, All, Any, take, length, ◌≤◌, ◌≡◌, refl,
  subst, sym, ap, arith, Bool-cases, min, dec_le, take_of_length-le, ◌⊎◌, inl, inr,
}
use qvcache.Merge.{insert_sorted, sort}

module _ {A : Type 0} where
  pub All-mono : {P Q : A → Type 0} (xs : List A) → ((x : A) → P x → Q x) → All P xs → All Q xs
  All-mono [] f h = tt
  All-mono (x ∷ xs) f h = (f x h.0, All-mono xs f h.1)

  pub All-Permᴰ : (P : A → Type 0) {xs ys : List A} → Permᴰ xs ys → All P xs → All P ys
  All-Permᴰ P Permᴰ.nil h = tt
  All-Permᴰ P (Permᴰ.cons e p) h = (subst P e h.0, All-Permᴰ P p h.1)
  All-Permᴰ P (Permᴰ.swap {l = l} e e') h = (subst P e' h.1.0, (subst P e h.0, h.1.1))
  All-Permᴰ P (Permᴰ.trans p q) h = All-Permᴰ P q (All-Permᴰ P p h)

  pub Any-mono : {P Q : A → Type 0} (xs : List A) → ((x : A) → P x → Q x) → Any P xs → Any Q xs
  Any-mono [] f h = elim h [ ]
  Any-mono (x ∷ xs) f (inl h) = inl (f x h)
  Any-mono (x ∷ xs) f (inr h) = inr (Any-mono xs f h)

  pub Any-Permᴰ : (P : A → Type 0) {xs ys : List A} → Permᴰ xs ys → Any P xs → Any P ys
  Any-Permᴰ P Permᴰ.nil h = elim h [ ]
  Any-Permᴰ P (Permᴰ.cons e p) (inl h) = inl (subst P e h)
  Any-Permᴰ P (Permᴰ.cons e p) (inr h) = inr (Any-Permᴰ P p h)
  Any-Permᴰ P (Permᴰ.swap e e') (inl h) = inr (inl (subst P e h))
  Any-Permᴰ P (Permᴰ.swap e e') (inr (inl h)) = inl (subst P e' h)
  Any-Permᴰ P (Permᴰ.swap e e') (inr (inr h)) = inr (inr h)
  Any-Permᴰ P (Permᴰ.trans p q) h = Any-Permᴰ P q (Any-Permᴰ P p h)

  pub All-Any :
      {P Q : A → Type 0} {C : Type 0} (xs : List A)
      → ((x : A) → P x → Q x → C)
      → All P xs
      → Any Q xs
      → C
  All-Any [] f h a = elim a [ ]
  All-Any (x ∷ xs) f h (inl a) = f x h.0 a
  All-Any (x ∷ xs) f h (inr a) = All-Any xs f h.1 a

  -- Every element stands in the relation to all later ones.
  abbrev pub Pairs : (A → A → Type 0) → List A → Type 0
  Pairs R [] = Unit
  Pairs R (x ∷ xs) = All (R x) xs × Pairs R xs

  pub Pairs-take : (R : A → A → Type 0) (n : ℕ) (xs : List A) → Pairs R xs → Pairs R (take n xs)
  Pairs-take R zero xs h = tt
  Pairs-take R (suc n) [] h = tt
  Pairs-take R (suc n) (x ∷ xs) h = (All-take (R x) n xs h.0, Pairs-take R n xs h.1)

  pub Pairs-Permᴰ :
      (R : A → A → Type 0) {xs ys : List A}
      → ((a b : A) → R a b → R b a)
      → Permᴰ xs ys
      → Pairs R xs
      → Pairs R ys
  Pairs-Permᴰ R flip Permᴰ.nil h = tt
  Pairs-Permᴰ R flip (Permᴰ.cons {a = a} {l₂ = l} e p) h =
      (subst (λ x. All (R x) l) e (All-Permᴰ (R a) p h.0), Pairs-Permᴰ R flip p h.1)
  Pairs-Permᴰ R flip (Permᴰ.swap {a = a} {b = b} {a' = a'} {b' = b'} {l = l} e e') h = (
    (subst (λ x. R x b') e' (subst (R b) e (flip a b h.0.0)), subst (λ x. All (R x) l) e' h.1.0),
    (subst (λ x. All (R x) l) e h.0.1, h.1.1),
  )
  Pairs-Permᴰ R flip (Permᴰ.trans p q) h = Pairs-Permᴰ R flip q (Pairs-Permᴰ R flip p h)

module _ {A : Type 0} (below : A → A → Bool) where
  -- No later element is below an earlier one.
  abbrev pub IsSorted : List A → Type 0
  IsSorted = Pairs (λ x y. below y x ≡ false)

  pub All-insert_sorted :
      (P : A → Type 0) (x : A) (xs : List A) → P x → All P xs → All P (insert_sorted below x xs)
  unfolding insert_sorted
  All-insert_sorted P x [] p h = (p, tt)
  All-insert_sorted P x (y ∷ ys) p h = elim (Bool-cases (below y x)) [
    | inl e ↦ rw (e, insert_sorted) (h.0, All-insert_sorted P x ys p h.1)
    | inr e ↦ rw (e, insert_sorted) (p, h)
  ]

  insert_sorted-Permᴰ : (x : A) (xs : List A) → Permᴰ (x ∷ xs) (insert_sorted below x xs)
  unfolding insert_sorted
  insert_sorted-Permᴰ x [] = Permᴰ.refl _
  insert_sorted-Permᴰ x (y ∷ ys) = elim (Bool-cases (below y x)) [
    | inl e ↦
        rw (e, insert_sorted)
          (Permᴰ.trans (Permᴰ.swap refl refl) (Permᴰ.cons refl (insert_sorted-Permᴰ x ys)))
    | inr e ↦ rw (e, insert_sorted) (Permᴰ.refl _)
  ]

  pub sort-Permᴰ : (xs : List A) → Permᴰ xs (sort below xs)
  unfolding sort
  sort-Permᴰ [] = Permᴰ.nil
  sort-Permᴰ (x ∷ xs) =
      Permᴰ.trans (Permᴰ.cons refl (sort-Permᴰ xs)) (insert_sorted-Permᴰ x (sort below xs))

  insert_sorted-IsSorted :
      (x : A) (xs : List A)
      → ((a b : A) → below a b ≡ true → below b a ≡ false)
      → ((a b c : A) → below b a ≡ false → below c b ≡ false → below c a ≡ false)
      → IsSorted xs
      → IsSorted (insert_sorted below x xs)
  unfolding insert_sorted
  insert_sorted-IsSorted x [] asym trans h = (tt, tt)
  insert_sorted-IsSorted x (y ∷ ys) asym trans h = elim (Bool-cases (below y x)) [
    | inl e ↦
        rw (e, insert_sorted)
          (
            All-insert_sorted (λ z. below z y ≡ false) x ys (asym y x e) h.0,
            insert_sorted-IsSorted x ys asym trans h.1,
          )
    | inr e ↦ rw (e, insert_sorted) ((e, All-mono ys (λ z. trans x y z e) h.0), h)
  ]

  pub sort-IsSorted :
      (xs : List A)
      → ((a b : A) → below a b ≡ true → below b a ≡ false)
      → ((a b c : A) → below b a ≡ false → below c b ≡ false → below c a ≡ false)
      → IsSorted (sort below xs)
  unfolding sort
  sort-IsSorted [] asym trans = tt
  sort-IsSorted (x ∷ xs) asym trans =
      insert_sorted-IsSorted x (sort below xs) asym trans (sort-IsSorted xs asym trans)

  -- What is not among the first n of a sorted list comes after each of them, and they are n.
  pub take-IsSorted :
      (P Q : A → Type 0) (n : ℕ) (xs : List A)
      → ((x y : A) → P x → below x y ≡ false → Q y)
      → IsSorted xs
      → Any P xs
      → Any P (take n xs) ⊎ ((length (take n xs) ≡ n) × All Q (take n xs))
  take-IsSorted P Q zero xs f h a = inr (refl, tt)
  take-IsSorted P Q (suc n) [] f h a = elim a [ ]
  take-IsSorted P Q (suc n) (x ∷ xs) f h (inl a) = inl (inl a)
  take-IsSorted P Q (suc n) (x ∷ xs) f h (inr a) = elim (take-IsSorted P Q n xs f h.1 a) [
    | inl b ↦ inl (inr b)
    | inr b ↦ inr (ap suc b.0, (All-Any xs (λ z e p. f z x p e) h.0 a, b.1))
  ]

  pub take-min-IsSorted :
      (P Q : A → Type 0) (k : ℕ) (xs : List A)
      → ((x y : A) → P x → below x y ≡ false → Q y)
      → IsSorted xs
      → Any P xs
      → Any P (take (min k (length xs)) xs)
        ⊎ ((length (take (min k (length xs)) xs) ≡ k) × All Q (take (min k (length xs)) xs))
  take-min-IsSorted P Q k xs f h a = elim (dec_le k (length xs)) [
    | yes le ↦
        let same : k ≡ min k (length xs) = omega arith in
        subst (λ n. Any P (take n xs) ⊎ ((length (take n xs) ≡ k) × All Q (take n xs))) same
          (take-IsSorted P Q k xs f h a)
    | no n ↦ inl (subst (Any P) (sym (take_of_length-le (min k (length xs)) xs (omega arith))) a)
  ]

module _ {A : Type 0} where
  length-take : (n : ℕ) (xs : List A) → length (take n xs) ≤ n
  length-take zero xs = omega arith
  length-take (suc n) [] = omega arith
  length-take (suc n) (x ∷ xs) = ground (arith, length-take n xs)

  pub length-take-min : (k : ℕ) (xs : List A) → length (take (min k (length xs)) xs) ≤ k
  length-take-min k xs = ground (arith, length-take (min k (length xs)) xs)
