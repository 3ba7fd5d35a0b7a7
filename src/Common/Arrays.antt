-- ===== src/Common/Arrays.antt =====
-- C arrays that the program allocates whole, as functions of the index. The program's own
-- bounds (the element counts kept beside each array) say which indices it may use.
use Prim.Native.Nat.{ℕ, ◌+◌}
use mathlib.Core.Path.{◌≡◌}
use mathlib.Core.Logic.{◌≢◌}
use mathlib.Core.Bool.{Bool, true, false, ◌&&◌}
use native.Mathlib.Omega.{arith}
use nvmevirt_slc_cache.Common.Tests.{◌==◌, leb, ltb, if◌then◌else◌}

module _ {ℓ} {A : Type ℓ} where
  -- `a[i] = v`
  abbrev pub update : (ℕ → A) → ℕ → A → ℕ → A
  update a i v j = if j == i then v else a j

  -- `memset(&a[from], v, count)`
  abbrev pub memset : (ℕ → A) → ℕ → A → ℕ → ℕ → A
  memset a from v count j = if leb from j && ltb j (from + count) then v else a j

  pub update_self : (a : ℕ → A) (i : ℕ) (v : A) → update a i v i ≡ v
  update_self a i v = ground arith

  pub update_ne : (a : ℕ → A) {i j : ℕ} (v : A) → j ≢ i → update a i v j ≡ a j
  update_ne a v h = ground arith

if_all {ℓ κ} :
    {A : Type ℓ} (P : A → Type κ) (b : Bool) (x y : A) → P x → P y → P (if b then x else y)
if_all P true x y h k = h
if_all P false x y h k = k

-- What holds of every entry and of the value written holds of every entry afterwards.
pub update_all {ℓ κ} :
    {A : Type ℓ} (P : A → Type κ) (a : ℕ → A) (i : ℕ) (v : A)
    → ((j : ℕ) → P (a j))
    → P v
    → (j : ℕ) → P (update a i v j)
update_all P a i v h k j = if_all P (j == i) v (a j) k (h j)
