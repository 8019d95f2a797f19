-- ===== src/Region/Ball/Visits.antt =====
-- The walk of include/qvcache/pca_utils.h as a list of the codes that it visits, in order.
use qvcache.Common.{
  ℕ, zero, suc, ◌+◌, ◌-◌, ◌%◌, ◌^◌, List, [], ◌∷◌, ◌++◌, map, ◌&&◌, Bool, true, false,
  if◌then◌else◌, leb, ltb, set, ◌≡◌, refl, ap, sym, ◌∙◌,
}
use qvcache.Region.Ball.{to_int, abs_delta}
use qvcache.Region.Ball.Free.{free_rounds, free_loop, free_bucket, free_walk}

abbrev push {ℓ} : {S : Type ℓ} → ℕ → List ℕ × S → List ℕ × S
push y st = (y ∷ st.0, st.1)

free_loop-push {ℓ} :
    {S : Type ℓ} (n j y : ℕ) (f g : ℕ → List ℕ × S → List ℕ × S) (st : List ℕ × S)
    → ((i : ℕ) (st' : List ℕ × S) → f i (push y st') ≡ push y (g i st'))
    → free_loop n j f (push y st) ≡ push y (free_loop n j g st)
unfolding free_loop
free_loop-push zero j y f g st h = refl
free_loop-push (suc n) j y f g st h =
    ap (free_loop n (suc j) f) (h j st) ∙ free_loop-push n (suc j) y f g (g j st) h

if-push {ℓ} :
    {S : Type ℓ} (y : ℕ) (t : Bool) (p q p' q' : List ℕ × S)
    → p ≡ push y p'
    → q ≡ push y q'
    → (if t then p else q) ≡ push y (if t then p' else q')
if-push y true p q p' q' g h = g
if-push y false p q p' q' g h = h

-- The loop's test and the value of a bucket.
abbrev pub valid : ℕ → ℕ → ℕ → ℕ → Bool
valid b left c j = leb (to_int left) (c + j) && ltb (c + j - to_int left) (to_int b)

abbrev pub byte : ℕ → ℕ → ℕ → ℕ
byte left c j = (c + j - to_int left) % 2 ^ 8

free_bucket-push {ℓ} :
    {S : Type ℓ} (b y : ℕ) (f g : ℕ → List ℕ × S → List ℕ × S) (i left c j : ℕ) (st : List ℕ × S)
    → ((rest : ℕ) (st' : List ℕ × S) → f rest (push y st') ≡ push y (g rest st'))
    → free_bucket b f (suc i) left c j (push y st) ≡ push y (free_bucket b g i left c j st)
unfolding free_bucket
free_bucket-push b y f g i left c j st h =
    if-push y (valid b left c j) _ _ _ _
      (h (left - abs_delta (to_int left) j) (set st.0 i (byte left c j), st.1)) refl

walk_step {ℓ} :
    {S : Type ℓ} (b : ℕ) (visit : List ℕ → S → S) (c : ℕ) (cs : List ℕ) (i left : ℕ)
    (st : List ℕ × S)
    → free_walk b visit (c ∷ cs) i left st ≡ (
        let r =
          free_loop
            (free_rounds left)
            0
            (free_bucket b (free_walk b visit cs (suc i)) i left c)
            st in
        (set r.0 i c, r.1))
unfolding free_walk
walk_step b visit c cs i left st = refl

-- A code in front of the walked ones stays in front of every visited code.
free_walk-push {ℓ} :
    {S : Type ℓ} (b : ℕ) (visit : List ℕ → S → S) (y : ℕ) (cs : List ℕ) (i left : ℕ)
    (st : List ℕ × S)
    → free_walk b visit cs (suc i) left (push y st)
      ≡ push y (free_walk b (λ k. visit (y ∷ k)) cs i left st)
free_walk-push b visit y [] i left st = unfold free_walk in refl
free_walk-push {S} b visit y (c ∷ cs) i left st =
    walk_step b visit c cs (suc i) left (push y st)
    ∙ ap (λ (r : List ℕ × S). let z : List ℕ × S = (set r.0 (suc i) c, r.1) in z)
        (free_loop-push (free_rounds left) 0 y
          (free_bucket b (free_walk b visit cs (suc (suc i))) (suc i) left c)
          (free_bucket b (free_walk b (λ k. visit (y ∷ k)) cs (suc i)) i left c) st
          λ j st'.
            free_bucket-push b y (free_walk b visit cs (suc (suc i)))
              (free_walk b (λ k. visit (y ∷ k)) cs (suc i)) i left c j st'
              (λ rest st''. free_walk-push b visit y cs (suc i) rest st''))
    ∙ ap (push y) (sym (walk_step b (λ k. visit (y ∷ k)) c cs i left st))

-- The codes that the loop over `n` values from `j` on visits, after the byte of each.
unfoldable pub rows : ℕ → (ℕ → List (List ℕ)) → ℕ → ℕ → ℕ → ℕ → List (List ℕ)
unfolding to_int abs_delta
rows b deeper left c zero j = []
rows b deeper left c (suc n) j =
    (if valid b left c j
      then map (◌∷◌ (byte left c j)) (deeper (left - abs_delta (to_int left) j))
      else [])
    ++ rows b deeper left c n (suc j)

-- The codes that the walk visits, in order.
unfoldable pub ball : ℕ → List ℕ → ℕ → List (List ℕ)
unfolding rows free_rounds
ball b [] left = [] ∷ []
ball b (c ∷ cs) left = rows b (ball b cs) left c (free_rounds left) 0

pub ball_step :
    (b c : ℕ) (cs : List ℕ) (left : ℕ)
    → ball b (c ∷ cs) left ≡ rows b (ball b cs) left c (free_rounds left) 0
unfolding ball
ball_step b c cs left = refl

module _ {ℓ} {S : Type ℓ} where
  abbrev pub visit_all : (List ℕ → S → S) → S → List (List ℕ) → S
  visit_all visit s [] = s
  visit_all visit s (k ∷ ks) = visit_all visit (visit k s) ks

  visit_all-append :
      (visit : List ℕ → S → S) (s : S) (ks ls : List (List ℕ))
      → visit_all visit s (ks ++ ls) ≡ visit_all visit (visit_all visit s ks) ls
  visit_all-append visit s [] ls = refl
  visit_all-append visit s (k ∷ ks) ls = visit_all-append visit (visit k s) ks ls

  visit_all-map :
      (visit : List ℕ → S → S) (y : ℕ) (s : S) (ks : List (List ℕ))
      → visit_all visit s (map (◌∷◌ y) ks) ≡ visit_all (λ k. visit (y ∷ k)) s ks
  visit_all-map visit y s [] = refl
  visit_all-map visit y s (k ∷ ks) = visit_all-map visit y (visit (y ∷ k) s) ks

  choose :
      (t : Bool) (visit : List ℕ → S → S) (cs : List ℕ) (x y : ℕ) (s : S) (p : List ℕ × S)
      (ks : List (List ℕ))
      → p ≡ (y ∷ cs, visit_all visit s ks)
      → (x' : ℕ) × ((if t then p else (x ∷ cs, s))
          ≡ (x' ∷ cs, visit_all visit s (if t then ks else [])))
  choose true visit cs x y s p ks e = (y, e)
  choose false visit cs x y s p ks e = (x, refl)

  loop_rows :
      (b : ℕ) (visit : List ℕ → S → S) (c : ℕ) (cs : List ℕ) (left : ℕ)
      (f : ℕ → List ℕ × S → List ℕ × S) (d : ℕ → List (List ℕ))
      → ((rest y : ℕ) (s : S)
          → f rest (y ∷ cs, s) ≡ (y ∷ cs, visit_all visit s (map (◌∷◌ y) (d rest))))
      → (n j x : ℕ) (s : S)
      → (x' : ℕ) × (free_loop n j (free_bucket b f 0 left c) (x ∷ cs, s)
          ≡ (x' ∷ cs, visit_all visit s (rows b d left c n j)))
  unfolding free_loop rows free_bucket
  loop_rows b visit c cs left f d h zero j x s = (x, refl)
  loop_rows b visit c cs left f d h (suc n) j x s =
      let rest = left - abs_delta (to_int left) j in
      let ks = map (◌∷◌ (byte left c j)) (d rest) in
      let (x', e) =
        choose (valid b left c j) visit cs x (byte left c j) s (f rest (byte left c j ∷ cs, s)) ks
          (h rest (byte left c j) s) in
      let now = if valid b left c j then ks else [] in
      let (x'', e') = loop_rows b visit c cs left f d h n (suc j) x' (visit_all visit s now) in
      (
        x'',
        ap (free_loop n (suc j) (free_bucket b f 0 left c)) e
            ∙ e'
            ∙ ap (λ r. let z : List ℕ × S = (x'' ∷ cs, r) in z)
                (sym (visit_all-append visit s now (rows b d left c n (suc j)))),
      )

  -- The free_walk restores the code and visits the codes of `ball`, one after the other.
  pub free_walk-ball :
      (b : ℕ) (visit : List ℕ → S → S) (cs : List ℕ) (left : ℕ) (s : S)
      → free_walk b visit cs 0 left (cs, s) ≡ (cs, visit_all visit s (ball b cs left))
  free_walk-ball b visit [] left s = unfold free_walk ball in refl
  free_walk-ball b visit (c ∷ cs) left s =
      let step : (rest y : ℕ) (s' : S)
          → free_walk b visit cs 1 rest (y ∷ cs, s')
            ≡ (y ∷ cs, visit_all visit s' (map (◌∷◌ y) (ball b cs rest))) =
        λ rest y s'.
          free_walk-push b visit y cs 0 rest (cs, s')
          ∙ ap (push y) (free_walk-ball b (λ k. visit (y ∷ k)) cs rest s')
          ∙ ap (λ r. let z : List ℕ × S = (y ∷ cs, r) in z)
              (sym (visit_all-map visit y s' (ball b cs rest))) in
      let (x', e) =
        loop_rows b visit c cs left (free_walk b visit cs 1) (ball b cs) step (free_rounds left) 0 c
          s in
      walk_step b visit c cs 0 left (c ∷ cs, s)
      ∙ ap (λ (r : List ℕ × S). let z : List ℕ × S = (set r.0 0 c, r.1) in z) e
      ∙ ap (λ ks. let z : List ℕ × S = (c ∷ cs, visit_all visit s ks) in z)
          (sym (ball_step b c cs left))
