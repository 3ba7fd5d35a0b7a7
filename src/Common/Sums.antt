-- ===== src/Common/Sums.antt =====
-- Sums of the first values of a function.
use Prim.Native.Nat.{ℕ, zero, suc, ◌+◌, ◌*◌, ◌≤◌, ◌<◌}
use mathlib.Core.Path.{◌≡◌, refl, sym, ap}
use mathlib.Core.Logic.{◌≢◌, ◌⊎◌, inl, inr}
use native.Mathlib.Omega.{arith}

unfoldable pub sum_below : (ℕ → ℕ) → ℕ → ℕ
sum_below f zero = 0
sum_below f (suc n) = sum_below f n + f n

pub sum_below_ext :
    (f g : ℕ → ℕ) (n : ℕ) → ((j : ℕ) → j < n → f j ≡ g j) → sum_below f n ≡ sum_below g n
unfolding sum_below
sum_below_ext f g zero h = refl
sum_below_ext f g (suc n) h =
    grind (arith, sum_below_ext f g n (λ j l. h j (omega arith)), h n (omega arith))

lt_or_last : (i n : ℕ) → i < suc n → (i < n) ⊎ (i ≡ n)
lt_or_last i n l = omega arith

-- One value changes, the others stay.
pub sum_below_change :
    (f g : ℕ → ℕ) (n i : ℕ)
    → i < n
    → ((j : ℕ) → j ≢ i → g j ≡ f j)
    → sum_below g n + f i ≡ sum_below f n + g i
unfolding sum_below
sum_below_change f g zero i l h = omega arith
sum_below_change f g (suc n) i l h = elim (lt_or_last i n l) [
  | inl l' ↦ omega (arith, sum_below_change f g n i l' h, h n (omega arith))
  | inr e ↦ omega (arith, sum_below_ext f g n (λ j l'. sym (h j (omega arith))), ap f e, ap g e)
]

pub sum_below_le : (f : ℕ → ℕ) (n k : ℕ) → ((j : ℕ) → j < n → f j ≤ k) → sum_below f n ≤ n * k
unfolding sum_below
sum_below_le f zero k h = omega arith
sum_below_le f (suc n) k h =
    omega (arith, sum_below_le f n k (λ j l. h j (omega arith)), h n (omega arith))

pub sum_below_add :
    (f g : ℕ → ℕ) (n : ℕ) → sum_below (λ j. f j + g j) n ≡ sum_below f n + sum_below g n
unfolding sum_below
sum_below_add f g zero = refl
sum_below_add f g (suc n) = omega (arith, sum_below_add f g n)

-- A sum of zeros and ones, and one of them.
pub sum_below_ones :
    (f : ℕ → ℕ) (n i : ℕ)
    → ((j : ℕ) → f j ≤ 1)
    → i < n
    → (f i ≤ sum_below f n) × (sum_below f n + 1 ≤ n + f i) × (sum_below f n ≤ n)
unfolding sum_below
sum_below_ones f zero i h l = absurd (omega arith)
sum_below_ones f (suc n) i h l = elim (lt_or_last i n l) [
  | inl l' ↦ omega (arith, sum_below_ones f n i h l', h n)
  | inr e ↦ omega (arith, sum_below_le f n 1 (λ j _. h j), h n, ap f e)
]
