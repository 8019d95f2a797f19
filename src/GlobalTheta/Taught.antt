-- ===== src/GlobalTheta/Taught.antt =====
-- The thresholds of include/qvcache/qvcache.h after a miss has taught one, and after a reset.
use qvcache.Common.{
  ℕ, ◌-◌, ◌≤◌, ◌<◌, List, true, false, if◌then◌else◌, some, find, put, get_elem?, find-put_self,
  ◌≡◌, refl, sym, ap, subst, ◌∙◌, arith, ℕ_discrete,
}
use qvcache.Floats.{Floats}
use qvcache.Region.Theta.{is_uninitialized_theta}
use qvcache.GlobalTheta.{Thresholds, theta_of, is_hit, update_theta}

module _ (F : Floats) where
  open F use {Real, one_real, add, mul, le_real}

  theta_of-found :
      (t : Thresholds F) (K : ℕ) (theta : Real)
      → find ℕ_discrete K t.theta_map ≡ some theta
      → theta_of F t K ≡ (t, theta)
  unfolding theta_of
  theta_of-found t K theta e = rw (e, theta_of) refl

  is_hit-found :
      (t : Thresholds F) (K vectors : ℕ) (theta cache_distance : Real) (distances : List Real)
      → 0 < K
      → K ≤ vectors
      → find ℕ_discrete K t.theta_map ≡ some theta
      → get_elem? distances (K - 1) ≡ some cache_distance
      → is_hit F t vectors K (some distances)
        ≡ some (
          t,
          if is_uninitialized_theta F t.is_cosine theta
              then false
              else le_real cache_distance (mul (add one_real t.deviation_factor) theta),
        )
  unfolding is_hit
  is_hit-found t K vectors theta cache_distance distances pos enough e x =
      ground (arith, theta_of-found t K theta e, x)

  abbrev taught : Thresholds F → ℕ → Real → Thresholds F
  taught t K d = record t {
    theta_map = put ℕ_discrete K d t.theta_map;
    global_theta_discount = one_real;
  }

  update_theta-first :
      (t : Thresholds F) (K : ℕ) (theta d : Real)
      → find ℕ_discrete K t.theta_map ≡ some theta
      → is_uninitialized_theta F t.is_cosine theta ≡ true
      → update_theta F t K d ≡ taught t K d
  unfolding update_theta
  update_theta-first t K theta d e u = rw (theta_of-found t K theta e, update_theta, u) refl

  -- A miss stores its distance as the threshold for K, if the map has an entry for K and that entry
  -- is uninitialised. The next hit test for K then leaves the thresholds alone and hits exactly when
  -- the K-th distance is within the tolerance around that distance, if the distance itself is not an
  -- uninitialised value, K is positive and the cache has at least K vectors.
  pub update_theta-taught :
      (t : Thresholds F) (K vectors : ℕ) (theta d cache_distance : Real) (distances : List Real)
      → find ℕ_discrete K t.theta_map ≡ some theta
      → is_uninitialized_theta F t.is_cosine theta ≡ true
      → is_uninitialized_theta F t.is_cosine d ≡ false
      → 0 < K
      → K ≤ vectors
      → get_elem? distances (K - 1) ≡ some cache_distance
      → is_hit F (update_theta F t K d) vectors K (some distances)
        ≡ some
            (update_theta F t K d, le_real cache_distance (mul (add one_real t.deviation_factor) d))
  update_theta-taught t K vectors theta d cache_distance distances e u v pos enough x =
      subst
        (λ s.
          is_hit F s vectors K (some distances)
          ≡ some (s, le_real cache_distance (mul (add one_real t.deviation_factor) d)))
        (sym (update_theta-first t K theta d e u))
        (is_hit-found (taught t K d) K vectors d cache_distance distances pos enough
            (find-put_self ℕ_discrete K d t.theta_map) x
          ∙ ap
              (λ b. some (
                taught t K d,
                (if b
                    then false
                    else le_real cache_distance (mul (add one_real t.deviation_factor) d)),
              ))
              v)
