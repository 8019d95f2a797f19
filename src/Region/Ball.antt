-- ===== src/Region/Ball.antt =====
-- `tighten_l1_ball_locked` of include/qvcache/pca_utils.h: a walk over the codes near a center. What
-- it does at a code is a parameter here. The loop counts with an `int`, and an overflow of it, which
-- has no meaning in C++, is none.
pub mod Free
pub mod Kept
pub mod Visits
pub mod Exact
use qvcache.Common.{
  ℕ, zero, suc, ◌+◌, ◌-◌, ◌*◌, ◌%◌, ◌^◌, List, [], ◌∷◌, Bool, ◌&&◌, if◌then◌else◌, leb, ltb, set,
  Option, none, some, ◌>>=◌,
}

-- `static_cast<int>`, where a negative value is read as 0.
unfoldable pub to_int : ℕ → ℕ
to_int n = let w = n % 2 ^ 32 in if ltb w (2 ^ 31) then w else 0

-- How many values the loop `for (delta = -maxd; delta <= maxd; ++delta)` takes. For the greatest
-- `int` as `maxd` the last `++delta` overflows, and for the least one `-maxd` does.
unfoldable pub rounds : ℕ → Option ℕ
rounds left =
    let w = left % 2 ^ 32 in
    if ltb w (2 ^ 31 - 1) then some (2 * w + 1) else if leb w (2 ^ 31) then none else some 0

-- `std::abs(delta)` for `delta = j - maxd`.
unfoldable pub abs_delta : ℕ → ℕ → ℕ
abs_delta maxd j = (j - maxd) + (maxd - j)

-- A counted loop from `j` on: the body sees the counter.
unfoldable pub count_loop {ℓ} : {S : Type ℓ} → ℕ → ℕ → (ℕ → S → Option S) → S → Option S
count_loop zero j body s = some s
count_loop (suc n) j body s = do s' ← body j s; count_loop n (suc j) body s'

-- The loop's body at `delta = j - maxd`, with `b = c + delta`, a sum that must fit an `int`; `deeper`
-- is the recursive call.
unfoldable pub try_bucket {ℓ} :
    {S : Type ℓ}
    → ℕ
    → (ℕ → List ℕ × S → Option (List ℕ × S))
    → ℕ
    → ℕ
    → ℕ
    → ℕ
    → List ℕ × S
    → Option (List ℕ × S)
unfolding to_int abs_delta
try_bucket buckets_per_dim deeper dim_i left c j (cur, s) =
    let maxd = to_int left in
    if leb (2 ^ 31 + maxd) (c + j)
    then none
    else if leb maxd (c + j) && ltb (c + j - maxd) (to_int buckets_per_dim)
    then deeper (left - abs_delta maxd j) (set cur dim_i ((c + j - maxd) % 2 ^ 8), s)
    else some (cur, s)

-- The center's codes from `dim_i` on, the radius that is left, the code under construction with
-- the state. On return the code is the center's again from `dim_i` on.
unfoldable pub walk {ℓ} :
    {S : Type ℓ} → ℕ → (List ℕ → S → S) → List ℕ → ℕ → ℕ → List ℕ × S → Option (List ℕ × S)
unfolding rounds count_loop try_bucket
walk buckets_per_dim visit [] dim_i left (cur, s) = some (cur, visit cur s)
walk buckets_per_dim visit (c ∷ cs) dim_i left st = do
  let deeper = walk buckets_per_dim visit cs (suc dim_i)
  n ← rounds left
  (cur, s) ← count_loop n 0 (try_bucket buckets_per_dim deeper dim_i left c) st
  some (set cur dim_i c, s)
