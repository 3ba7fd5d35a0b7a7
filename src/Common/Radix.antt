-- ===== src/Common/Radix.antt =====
-- Mixed-radix numbers: `a * m + b` with `b < m` is below `n * m` and determines both digits.
use Prim.Native.Nat.{ℕ, ◌+◌, ◌*◌, ◌≤◌, ◌<◌}
use mathlib.Core.Path.{◌≡◌, ap}
use mathlib.Core.Logic.{◌⊎◌, inl, inr}
use native.Mathlib.Omega.{arith}

mul_le_mul : (a b m : ℕ) → a ≤ b → a * m ≤ b * m
mul_le_mul a b m h = grind arith

pub radix-lt : (a b m n : ℕ) → a < n → b < m → a * m + b < n * m
radix-lt a b m n h k = omega (arith, mul_le_mul (a + 1) n m (omega arith))

lt_cases : (a b : ℕ) → (a < b) ⊎ (a ≡ b) ⊎ (b < a)
lt_cases a b = grind arith

pub radix_digits :
    (a b a' b' m : ℕ) → b < m → b' < m → a * m + b ≡ a' * m + b' → (a ≡ a') × (b ≡ b')
radix_digits a b a' b' m h h' e = elim (lt_cases a a') [
  | inl lt ↦ absurd (omega (arith, mul_le_mul (a + 1) a' m (omega arith)))
  | inr (inl eq) ↦ (eq, omega (arith, ap (λ (t : ℕ). t * m) eq))
  | inr (inr gt) ↦ absurd (omega (arith, mul_le_mul (a' + 1) a m (omega arith)))
]
