-- ===== src/Prelude/Sums.antt =====
-- Sums over a list.
use Prim.Native.Nat.{ℕ, zero, suc, ◌+◌, ◌≤◌}
use mathlib.Core.Path.{◌≡◌, ap}
use mathlib.Core.Option.{some}
use mathlib.Core.List.{List, [], ◌∷◌, ◌++◌}
use native.Mathlib.Omega.{arith}
use tp_2021_1c_en_c_errados.Prelude.Lists.{get_elem?, set}
use tp_2021_1c_en_c_errados.Prelude.Slices.{some_injective}

unfoldable pub suma {ℓ} : {A : Type ℓ} → (A → ℕ) → List A → ℕ
suma f [] = 0
suma f (x ∷ xs) = f x + suma f xs

module _ {ℓ} {A : Type ℓ} (f : A → ℕ) where
  pub suma-append : (xs ys : List A) → suma f (xs ++ ys) ≡ suma f xs + suma f ys
  unfolding suma
  suma-append [] ys = omega arith
  suma-append (x ∷ xs) ys = omega (arith, suma-append xs ys)

  pub suma-set :
      (xs : List A) (i : ℕ) (x y : A)
      → get_elem? xs i ≡ some x
      → suma f (set xs i y) + f x ≡ suma f xs + f y
  unfolding suma
  suma-set [] i x y h = cc
  suma-set (z ∷ zs) zero x y h = let e : f z ≡ f x = ap f (some_injective h) in omega arith
  suma-set (z ∷ zs) (suc i) x y h = omega (arith, suma-set zs i x y h)

  pub suma_le : (g : A → ℕ) (xs : List A) → ((x : A) → f x ≤ g x) → suma f xs ≤ suma g xs
  unfolding suma
  suma_le g [] h = omega arith
  suma_le g (x ∷ xs) h = omega (arith, h x, suma_le g xs h)
