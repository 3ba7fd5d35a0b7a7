-- ===== src/Io/Relinks.antt =====
-- Chains cut in two, and chains whose end is linked on.
use nvmevirt_slc_cache.Common.{ℕ, ◌≡◌, ◌≢◌, refl, sym, ap, ◌∙◌, List, [], ◌∷◌, ◌++◌}
use nvmevirt_slc_cache.Io.{IoWork}
use nvmevirt_slc_cache.Io.Chains.{All, NotIn, Distinct, Seg, Fwd}

-- A chain cut in two; `first` is where the second part begins.
pub record Cut (q : ℕ → IoWork) (p f : ℕ) (xs ys : List ℕ) (l n : ℕ) : Type 0 where
  pub last : ℕ
  pub first : ℕ
  pub front : Seg q p f xs last first
  pub back : Seg q last first ys l n

pub Seg-cut :
    (q : ℕ → IoWork) (p f : ℕ) (xs ys : List ℕ) (l n : ℕ)
    → Seg q p f (xs ++ ys) l n
    → Cut q p f xs ys l n
Seg-cut q p f [] ys l n s = record { last = p; first = f; front = (refl, refl); back = s }
Seg-cut q p f (x ∷ xs) ys l n (e, k, s) =
    let r = Seg-cut q x (q x).next xs ys l n s in
    record { last = r.last; first = r.first; front = (e, k, r.front); back = r.back }

-- The last of a list, or what is given if it is empty.
abbrev pub last_or : ℕ → List ℕ → ℕ
last_or d [] = d
last_or d (x ∷ xs) = last_or x xs

pub Fwd-last :
    (q : ℕ → IoWork) (p f : ℕ) (xs : List ℕ) (l n : ℕ) → Fwd q p f xs l n → l ≡ last_or p xs
Fwd-last q p f [] l n (e, k) = k
Fwd-last q p f (x ∷ xs) l n (e, s) = Fwd-last q x (q x).next xs l n s

pub NotIn-last : (z x : ℕ) (xs : List ℕ) → NotIn z (x ∷ xs) → last_or x xs ≢ z
NotIn-last z x [] (h, _) = h
NotIn-last z x (y ∷ ys) (h, k) = NotIn-last z y ys k

-- The entry after the last is another, and the other links are the same.
pub Fwd-relink :
    (q r : ℕ → IoWork) (p f x : ℕ) (xs : List ℕ) (l n m : ℕ)
    → Distinct (x ∷ xs)
    → All (λ y. y ≢ l → (r y).next ≡ (q y).next) (x ∷ xs)
    → (r l).next ≡ m
    → Fwd q p f (x ∷ xs) l n
    → Fwd r p f (x ∷ xs) l m
Fwd-relink q r p f x [] l n m d a h (e, (k, j)) = (e, (ap (λ (y : ℕ). (r y).next) (sym j) ∙ h, j))
Fwd-relink q r p f x (y ∷ ys) l n m (u, d) (b, a) h (e, s) = (
  e,
  rw (b λ g. NotIn-last x y ys u (sym (Fwd-last q x (q x).next (y ∷ ys) l n s) ∙ sym g))
      (Fwd-relink q r x (q x).next y ys l n m d a h s),
)

pub All-last : (P : ℕ → Type 0) (x : ℕ) (xs : List ℕ) → All P (x ∷ xs) → P (last_or x xs)
All-last P x [] (h, _) = h
All-last P x (y ∷ ys) (_, h) = All-last P y ys h
