-- ===== src/GlobalTheta.antt =====
-- The one threshold per K that `QVCache` of include/qvcache/qvcache.h keeps without regions: the hit
-- test and the update after a miss. A read past the distances is none.
pub mod Taught
use qvcache.Common.{
  ℕ, ◌-◌, ◌==◌, ltb, ◌||◌, List, [], ◌∷◌, Bool, true, false, if◌then◌else◌, Option, none, some,
  ◌>>=◌, find, put, map, get_elem?, ℕ_discrete,
}
use qvcache.Floats.{Floats}
use qvcache.Region.Theta.{is_uninitialized_theta, uninitialized_theta}

module _ (F : Floats) where
  open F use {Real, zero_real, one_real, add, sub, mul, le_real}

  pub record Thresholds : Type 0 where
    pub is_cosine : Bool
    pub theta_map : List (ℕ × Real)
    pub p : Real
    pub deviation_factor : Real
    pub global_theta_discount : Real

  -- `theta_map[K]`, which inserts 0.0 for a K that is not there.
  unfoldable pub theta_of : Thresholds → ℕ → Thresholds × Real
  theta_of t K = elim (find ℕ_discrete K t.theta_map) [
    | some theta ↦ (t, theta)
    | none ↦ (record t { theta_map = put ℕ_discrete K zero_real t.theta_map }, zero_real)
  ]

  -- The end of `isHit`, for a cache of so many vectors; none is the null pointer.
  unfoldable pub is_hit : Thresholds → ℕ → ℕ → Option (List Real) → Option (Thresholds × Bool)
  unfolding theta_of is_uninitialized_theta
  is_hit t vectors K none = some (t, false)
  is_hit t vectors K (some distances) = if ltb vectors K || K == 0 then some (t, false) else (do
    let (t', threshold) = theta_of t K
    if is_uninitialized_theta F t.is_cosine threshold then some (t', false) else (do
      cache_distance ← get_elem? distances (K - 1)
      some (t', le_real cache_distance (mul (add one_real t.deviation_factor) threshold))))

  unfoldable pub update_theta : Thresholds → ℕ → Real → Thresholds
  unfolding theta_of is_uninitialized_theta
  update_theta t K query_distance =
      let read = theta_of t K in
      let theta =
        if is_uninitialized_theta F t.is_cosine read.1
        then query_distance
        else add (mul t.p query_distance) (mul (sub one_real t.p) read.1) in
      record read.0 {
        theta_map = put ℕ_discrete K theta read.0.theta_map;
        global_theta_discount = one_real;
      }

  unfoldable pub reset_global_theta_map : Thresholds → Thresholds
  unfolding uninitialized_theta
  reset_global_theta_map t =
      let init_value = uninitialized_theta F t.is_cosine in
      record t {
        theta_map = map (λ kv. (kv.0, init_value)) t.theta_map;
        global_theta_discount = one_real;
      }
