-- ===== src/Tests/Tenths.antt =====
-- Numbers in tenths, as an instance of the floating-point operations.
use qvcache.Common.{ℕ, ◌+◌, ◌-◌, ◌*◌, ◌/◌, leb, ltb, ◌==◌}
use qvcache.Floats.{Floats}

abbrev pub tenths : Floats
tenths = record {
  Real = ℕ;
  zero_real = 0;
  one_real = 10;
  add = ◌+◌;
  sub = ◌-◌;
  mul = λ a b. a * b / 10;
  div = λ a b. a * 10 / b;
  le_real = leb;
  lt_real = ltb;
  eq_real = ◌==◌;
  max_double = 2000000;
  half_max = 1000000;
  neg_infinity = 3000000;
  of_size = λ n. n * 10;
  to_size = λ a. a / 10;
}
