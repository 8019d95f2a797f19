-- ===== src/Region/Ball/Free.antt =====
-- The walk of include/qvcache/pca_utils.h over numbers that do not overflow, and when it is the walk.
use qvcache.Common.{
  ℕ, zero, suc, ◌+◌, ◌-◌, ◌*◌, ◌%◌, ◌^◌, ◌≤◌, ◌<◌, List, [], ◌∷◌, All, false, ◌&&◌, if◌then◌else◌,
  leb, ltb, set, Option, some, ◌≡◌, refl, arith, Bool-cases, inl, inr,
}
use qvcache.Region.Ball.{to_int, rounds, abs_delta, count_loop, try_bucket, walk}

-- The number of values of the loop.
unfoldable pub free_rounds : ℕ → ℕ
unfolding to_int
free_rounds left = if ltb (left % 2 ^ 32) (2 ^ 31) then 2 * to_int left + 1 else 0

-- A counted loop.
unfoldable pub free_loop {ℓ} : {S : Type ℓ} → ℕ → ℕ → (ℕ → S → S) → S → S
free_loop zero j body s = s
free_loop (suc n) j body s = free_loop n (suc j) body (body j s)

-- The body of the loop.
unfoldable pub free_bucket {ℓ} :
    {S : Type ℓ} → ℕ → (ℕ → List ℕ × S → List ℕ × S) → ℕ → ℕ → ℕ → ℕ → List ℕ × S → List ℕ × S
unfolding to_int abs_delta
free_bucket buckets_per_dim deeper dim_i left c j (cur, s) =
    let maxd = to_int left in
    if leb maxd (c + j) && ltb (c + j - maxd) (to_int buckets_per_dim)
    then deeper (left - abs_delta maxd j) (set cur dim_i ((c + j - maxd) % 2 ^ 8), s)
    else (cur, s)

-- The whole walk.
unfoldable pub free_walk {ℓ} :
    {S : Type ℓ} → ℕ → (List ℕ → S → S) → List ℕ → ℕ → ℕ → List ℕ × S → List ℕ × S
unfolding free_rounds free_loop free_bucket
free_walk buckets_per_dim visit [] dim_i left (cur, s) = (cur, visit cur s)
free_walk buckets_per_dim visit (c ∷ cs) dim_i left st =
    let deeper = free_walk buckets_per_dim visit cs (suc dim_i) in
    let (cur, s) =
      free_loop (free_rounds left) 0 (free_bucket buckets_per_dim deeper dim_i left c) st in
    (set cur dim_i c, s)

count_loop-runs {ℓ} :
    {S : Type ℓ} (n j : ℕ) (f : ℕ → S → Option S) (g : ℕ → S → S) (s : S)
    → ((i : ℕ) (s' : S) → i < j + n → f i s' ≡ some (g i s'))
    → count_loop n j f s ≡ some (free_loop n j g s)
unfolding count_loop free_loop
count_loop-runs zero j f g s h = refl
count_loop-runs (suc n) j f g s h =
    rw (h j s (omega arith))
      (count_loop-runs n (suc j) f g (g j s) (λ i s' l. h i s' (omega (arith, l))))

to_int_fits : (n : ℕ) → n + 2 ^ 8 ≤ 2 ^ 31 → to_int n ≡ n
unfolding to_int
to_int_fits n h = ground arith

rounds-runs : (left : ℕ) → left + 2 ^ 8 ≤ 2 ^ 31 → rounds left ≡ some (2 * left + 1)
unfolding rounds
rounds-runs left h = ground arith

free_rounds_fits : (left : ℕ) → left + 2 ^ 8 ≤ 2 ^ 31 → free_rounds left ≡ 2 * left + 1
unfolding free_rounds to_int
free_rounds_fits left h = ground arith

try_bucket-runs {ℓ} :
    {S : Type ℓ} (b i left c j : ℕ) (f : ℕ → List ℕ × S → Option (List ℕ × S))
    (g : ℕ → List ℕ × S → List ℕ × S) (st : List ℕ × S)
    → c < 2 ^ 8
    → left + 2 ^ 8 ≤ 2 ^ 31
    → j < 2 * left + 1
    → ((rest : ℕ) (st' : List ℕ × S) → rest ≤ left → f rest st' ≡ some (g rest st'))
    → try_bucket b f i left c j st ≡ some (free_bucket b g i left c j st)
unfolding try_bucket free_bucket
try_bucket-runs b i left c j f g st byte fits below deeper =
    let here = to_int_fits left fits in
    let fine : leb (2 ^ 31 + left) (c + j) ≡ false = ground arith in
    elim (Bool-cases (leb left (c + j) && ltb (c + j - left) (to_int b))) [
      | inl e ↦ rw (here, fine, e) (deeper (left - abs_delta left j) _ (omega arith))
      | inr e ↦ rw (here, fine, e) refl
    ]

-- From codes that are bytes, and with a radius that fits an `int` with a byte added, no `int`
-- overflows.
pub walk-runs {ℓ} :
    {S : Type ℓ} (b : ℕ) (visit : List ℕ → S → S) (cs : List ℕ) (i left : ℕ) (st : List ℕ × S)
    → All (λ c. c < 2 ^ 8) cs
    → left + 2 ^ 8 ≤ 2 ^ 31
    → walk b visit cs i left st ≡ some (free_walk b visit cs i left st)
unfolding walk free_walk
walk-runs b visit [] i left st bytes fits = refl
walk-runs b visit (c ∷ cs) i left st bytes fits =
    rw
      (
        rounds-runs left fits,
        free_rounds_fits left fits,
        count_loop-runs (2 * left + 1) 0 (try_bucket b (walk b visit cs (suc i)) i left c)
            (free_bucket b (free_walk b visit cs (suc i)) i left c) st
            (λ j st' below.
              try_bucket-runs b i left c j (walk b visit cs (suc i)) (free_walk b visit cs (suc i))
                st' bytes.0 fits (omega (arith, below))
                (λ rest st'' l.
                  walk-runs b visit cs (suc i) rest st'' bytes.1 (omega (arith, l, fits)))),
      )
      refl
