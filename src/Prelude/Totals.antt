-- ===== src/Prelude/Totals.antt =====
-- Sums of weights over a list. Two lists hold the same elements, each as often, when the sums agree for
-- every weight.
use Prim.Native.Nat.{ℕ, ◌+◌}
use mathlib.Core.Path.{◌≡◌}
use mathlib.Core.List.{List, [], ◌∷◌, ◌++◌}
use native.Mathlib.Omega.{arith}

module _ {ℓ} {A : Type ℓ} where
  unfoldable pub total : (A → ℕ) → List A → ℕ
  total w [] = 0
  total w (x ∷ xs) = w x + total w xs

  pub total-append : (w : A → ℕ) (xs ys : List A) → total w (xs ++ ys) ≡ total w xs + total w ys
  unfolding total
  total-append w [] ys = omega arith
  total-append w (x ∷ xs) ys = omega (arith, total-append w xs ys)
