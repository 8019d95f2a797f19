-- ===== src/Common/Totals.antt =====
-- Sums over a list, and what a write to one place does to them.
use Prim.Native.Nat.{ℕ, zero, suc, ◌+◌, ◌<◌, ◌≤◌}
use mathlib.Core.Path.{◌≡◌, refl}
use mathlib.Core.List.{List, [], ◌∷◌, ◌++◌}
use mathlib.Core.Option.{some}
use native.Mathlib.Omega.{arith}
use native.Mathlib.Decide.{dec_lt}
use qvcache.Common.Lists.{get_elem?, set}

module _ {ℓ} {A : Type ℓ} where
  abbrev pub total : (A → ℕ) → List A → ℕ
  total w [] = 0
  total w (x ∷ xs) = w x + total w xs

  pub total-append : (w : A → ℕ) (xs ys : List A) → total w (xs ++ ys) ≡ total w xs + total w ys
  total-append w [] ys = omega arith
  total-append w (x ∷ xs) ys = omega (arith, total-append w xs ys)

  pub total-set :
      (w : A → ℕ) (xs : List A) (i : ℕ) (x y : A)
      → get_elem? xs i ≡ some x
      → total w (set xs i y) + w x ≡ total w xs + w y
  total-set w [] i x y e = cc
  total-set w (z ∷ xs) zero x y e = ground arith
  total-set w (z ∷ xs) (suc i) x y e = omega (arith, total-set w xs i x y e)

  -- A positive sum has a positive term.
  pub total-positive :
      (w : A → ℕ) (xs : List A)
      → 0 < total w xs
      → (i : ℕ) × (x : A) × (get_elem? xs i ≡ some x) × (0 < w x)
  total-positive w [] h = absurd (omega arith)
  total-positive w (x ∷ xs) h = elim (dec_lt 0 (w x)) [
    | yes p ↦ (0, x, refl, p)
    | no n ↦ let (i, y, e, p) = total-positive w xs (omega arith) in (suc i, y, e, p)
  ]

  -- A term is at most the sum.
  pub total-term :
      (w : A → ℕ) (xs : List A) (i : ℕ) (x : A) → get_elem? xs i ≡ some x → w x ≤ total w xs
  total-term w [] i x e = cc
  total-term w (y ∷ xs) zero x e = ground arith
  total-term w (y ∷ xs) (suc i) x e = omega (arith, total-term w xs i x e)
