-- ===== src/Prelude/Digits.antt =====
-- The recursion on binary digits behind the native bit operations.
use Prim.Native.Nat.{ℕ, zero, suc, ◌/◌, ◌≤◌, digits}
use mathlib.Core.Path.{◌≡◌, refl}
use native.Mathlib.Omega.{arith}

-- The recursion that the native operations stand for does not depend on its fuel.
module _ (rest : ℕ → ℕ) (op : ℕ → ℕ → ℕ) where
  pub digits_enough : (n m a b : ℕ) → a ≤ n → a ≤ m → digits rest op n a b ≡ digits rest op m a b
  digits_enough zero zero a b p q = refl
  digits_enough (suc n) (suc m) zero b p q = refl
  digits_enough (suc n) (suc m) (suc a) b p q =
      omega (arith, digits_enough n m (suc a / 2) (b / 2) (omega arith) (omega arith))
  digits_enough zero (suc m) zero b p q = refl
  digits_enough (suc n) zero zero b p q = refl
  digits_enough zero (suc m) (suc a) b p q = absurd (omega arith)
  digits_enough (suc n) zero (suc a) b p q = absurd (omega arith)
