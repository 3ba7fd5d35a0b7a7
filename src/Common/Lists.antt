-- ===== src/Common/Lists.antt =====
-- Linked lists of the kernel (`struct list_head`), as lists of the indices of their entries.
use Prim.Native.Nat.{ℕ, zero, suc, ◌+◌}
use mathlib.Core.Path.{◌≡◌, refl}
use mathlib.Core.Bool.{Bool, true, false}
use mathlib.Core.List.{List, [], ◌∷◌, ◌++◌}
use mathlib.Core.Option.{Option, none, some}
use native.Mathlib.Omega.{arith}
use nvmevirt_slc_cache.Common.Tests.{◌==◌, if◌then◌else◌}

module _ {ℓ} {A : Type ℓ} where
  abbrev pub length : List A → ℕ
  length [] = 0
  length (x ∷ xs) = suc (length xs)

  abbrev pub get_elem? : List A → ℕ → Option A
  get_elem? [] i = none
  get_elem? (x ∷ xs) zero = some x
  get_elem? (x ∷ xs) (suc i) = get_elem? xs i

  pub length-append : (xs ys : List A) → length (xs ++ ys) ≡ length xs + length ys
  length-append [] ys = omega arith
  length-append (x ∷ xs) ys = omega (arith, length-append xs ys)

-- `list_add_tail`
abbrev pub list_add_tail : ℕ → List ℕ → List ℕ
list_add_tail i xs = xs ++ (i ∷ [])

-- `list_del_init`: the entry leaves the list; an entry that is on no list stays alone.
abbrev pub list_del : ℕ → List ℕ → List ℕ
list_del i [] = []
list_del i (x ∷ xs) = if x == i then xs else x ∷ list_del i xs

abbrev pub elem : ℕ → List ℕ → Bool
elem i [] = false
elem i (x ∷ xs) = if x == i then true else elem i xs

pub length-list_add_tail : (i : ℕ) (xs : List ℕ) → length (list_add_tail i xs) ≡ length xs + 1
length-list_add_tail i xs = omega (arith, length-append xs (i ∷ []))

pub length-list_del :
    (i : ℕ) (xs : List ℕ) → elem i xs ≡ true → length (list_del i xs) + 1 ≡ length xs
length-list_del i [] h = ground arith
length-list_del i (x ∷ xs) h = ground (arith, length-list_del i xs)

pub list_del_absent : (i : ℕ) (xs : List ℕ) → elem i xs ≡ false → list_del i xs ≡ xs
list_del_absent i [] h = refl
list_del_absent i (x ∷ xs) h = ground (arith, list_del_absent i xs)
