-- ===== src/Tests/GlobalTheta.antt =====
-- The thresholds without regions of include/qvcache/qvcache.h, in tenths.
use qvcache.Common.{[], ◌∷◌, true, false, some, find, put, ℕ_discrete, ◌≡◌, refl, arith}
use qvcache.Region.Theta.{is_uninitialized_theta}
use qvcache.GlobalTheta.{Thresholds, is_hit, update_theta, reset_global_theta_map}
use qvcache.GlobalTheta.Taught.{update_theta-taught}
use qvcache.Tests.Tenths.{tenths}

-- Thresholds for 1 and 5, without a value; the tolerance is a tenth.
abbrev pub fresh : Thresholds tenths
fresh = record {
  is_cosine = false;
  theta_map = (1, 2000000) ∷ (5, 2000000) ∷ [];
  p = 5;
  deviation_factor = 1;
  global_theta_discount = 10;
}

reset-fresh : reset_global_theta_map tenths (update_theta tenths fresh 1 50) ≡ fresh
unfolding reset_global_theta_map update_theta find put ℕ_discrete
reset-fresh = refl

update_theta-taught_example :
    is_hit tenths (update_theta tenths fresh 1 50) 3 1 (some (54 ∷ []))
    ≡ some (update_theta tenths fresh 1 50, true)
unfolding is_uninitialized_theta find ℕ_discrete
update_theta-taught_example =
    update_theta-taught tenths fresh 1 3 2000000 50 54 (54 ∷ []) refl refl refl (omega arith)
      (omega arith) refl
