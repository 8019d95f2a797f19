-- ===== src/Floats.antt =====
-- The `double` and `float` values that the code computes with, by the operations that it uses. A
-- `float` widens to a `double` exactly, so that one type stands for both.
use qvcache.Common.{ℕ, Bool}

pub record Floats : Type 1 where
  pub Real : Type 0
  pub zero_real : Real
  pub one_real : Real
  pub add : Real → Real → Real
  pub sub : Real → Real → Real
  pub mul : Real → Real → Real
  pub div : Real → Real → Real
  pub le_real : Real → Real → Bool
  pub lt_real : Real → Real → Bool
  pub eq_real : Real → Real → Bool
  pub max_double : Real  -- std::numeric_limits<double>::max()
  pub half_max : Real  -- std::numeric_limits<double>::max() * 0.5
  pub neg_infinity : Real
  pub of_size : ℕ → Real  -- the conversion of a `size_t`
  pub to_size : Real → ℕ  -- `static_cast<size_t>`
