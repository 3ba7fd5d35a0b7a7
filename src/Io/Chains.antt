-- ===== src/Io/Chains.antt =====
-- Chains of entries, linked both ways or forward only, and what keeps them.
use nvmevirt_slc_cache.Common.{ℕ, ◌≡◌, ◌≢◌, refl, sym, ap, ◌∙◌, List, [], ◌∷◌, ◌++◌}
use nvmevirt_slc_cache.Io.State.{IoWork}

-- `P` holds of every member.
abbrev pub All : (ℕ → Type 0) → List ℕ → Type 0
All P [] = Unit
All P (x ∷ xs) = P x × All P xs

-- What holds of every entry.
pub everywhere : (P : ℕ → Type 0) → ((x : ℕ) → P x) → (xs : List ℕ) → All P xs
everywhere P f [] = tt
everywhere P f (x ∷ xs) = (f x, everywhere P f xs)

pub All-mono : (P Q : ℕ → Type 0) → ((x : ℕ) → P x → Q x) → (xs : List ℕ) → All P xs → All Q xs
All-mono P Q f [] h = tt
All-mono P Q f (x ∷ xs) (a, h) = (f x a, All-mono P Q f xs h)

pub All-both :
    (P Q R : ℕ → Type 0)
    → ((x : ℕ) → P x → Q x → R x)
    → (xs : List ℕ) → All P xs
    → All Q xs
    → All R xs
All-both P Q R f [] h k = tt
All-both P Q R f (x ∷ xs) (a, h) (b, k) = (f x a b, All-both P Q R f xs h k)

pub All-append : (P : ℕ → Type 0) (xs ys : List ℕ) → All P xs → All P ys → All P (xs ++ ys)
All-append P [] ys h k = k
All-append P (x ∷ xs) ys (a, h) k = (a, All-append P xs ys h k)

pub All-parts : (P : ℕ → Type 0) (xs ys : List ℕ) → All P (xs ++ ys) → All P xs × All P ys
All-parts P [] ys h = (tt, h)
All-parts P (x ∷ xs) ys (a, h) = let r = All-parts P xs ys h in ((a, r.0), r.1)

abbrev pub NotIn : ℕ → List ℕ → Type 0
NotIn e xs = All (λ x. x ≢ e) xs

-- No member twice.
abbrev pub Distinct : List ℕ → Type 0
Distinct [] = Unit
Distinct (x ∷ xs) = NotIn x xs × Distinct xs

-- No member in common.
abbrev pub Apart : List ℕ → List ℕ → Type 0
Apart xs ys = All (λ x. NotIn x ys) xs

pub Distinct-parts :
    (xs ys : List ℕ) → Distinct (xs ++ ys) → Distinct xs × Distinct ys × Apart xs ys
Distinct-parts [] ys d = (tt, d, tt)
Distinct-parts (x ∷ xs) ys (n, d) =
    let r = Distinct-parts xs ys d in
    let a = All-parts (λ y. y ≢ x) xs ys n in ((a.0, r.0), r.1, (a.1, r.2))

pub Distinct-append :
    (xs ys : List ℕ) → Distinct xs → Distinct ys → Apart xs ys → Distinct (xs ++ ys)
Distinct-append [] ys d e a = e
Distinct-append (x ∷ xs) ys (n, d) e (m, a) =
    (All-append (λ y. y ≢ x) xs ys n m, Distinct-append xs ys d e a)

pub Apart-sym : (xs ys : List ℕ) → Apart xs ys → Apart ys xs
Apart-sym xs [] a = tt
Apart-sym xs (y ∷ ys) a = (
  All-mono (λ x. NotIn x (y ∷ ys)) (λ x. x ≢ y) (λ x n e. n.0 (sym e)) xs a,
  Apart-sym xs ys (All-mono (λ x. NotIn x (y ∷ ys)) (λ x. NotIn x ys) (λ x n. n.1) xs a),
)

-- The entries of `xs`, linked both ways: `f` is the first, or `n` if there is none, and `l` the last,
-- or `p` if there is none; `p` comes before the first, and `n` after the last.
abbrev pub Seg : (ℕ → IoWork) → ℕ → ℕ → List ℕ → ℕ → ℕ → Type 0
Seg q p f [] l n = (f ≡ n) × (l ≡ p)
Seg q p f (x ∷ xs) l n = (f ≡ x) × ((q x).prev ≡ p) × Seg q x (q x).next xs l n

-- The same, linked forward.
abbrev pub Fwd : (ℕ → IoWork) → ℕ → ℕ → List ℕ → ℕ → ℕ → Type 0
Fwd q p f [] l n = (f ≡ n) × (l ≡ p)
Fwd q p f (x ∷ xs) l n = (f ≡ x) × Fwd q x (q x).next xs l n

pub Seg-Fwd :
    (q : ℕ → IoWork) (p f : ℕ) (xs : List ℕ) (l n : ℕ) → Seg q p f xs l n → Fwd q p f xs l n
Seg-Fwd q p f [] l n s = s
Seg-Fwd q p f (x ∷ xs) l n (e, _, s) = (e, Seg-Fwd q x (q x).next xs l n s)

-- The links of an entry are the same.
abbrev pub SameLinks : (ℕ → IoWork) → (ℕ → IoWork) → ℕ → Type 0
SameLinks q r x = ((r x).next ≡ (q x).next) × ((r x).prev ≡ (q x).prev)

pub Seg-same :
    (q r : ℕ → IoWork) (p f : ℕ) (xs : List ℕ) (l n : ℕ)
    → All (SameLinks q r) xs
    → Seg q p f xs l n
    → Seg r p f xs l n
Seg-same q r p f [] l n a s = s
Seg-same q r p f (x ∷ xs) l n ((h, k), a) (e, b, s) =
    (e, k ∙ b, rw h (Seg-same q r x (q x).next xs l n a s))

pub Fwd-same :
    (q r : ℕ → IoWork) (p f : ℕ) (xs : List ℕ) (l n : ℕ)
    → All (λ x. (r x).next ≡ (q x).next) xs
    → Fwd q p f xs l n
    → Fwd r p f xs l n
Fwd-same q r p f [] l n a s = s
Fwd-same q r p f (x ∷ xs) l n (h, a) (e, s) = (e, rw h (Fwd-same q r x (q x).next xs l n a s))

pub Seg-append :
    (q : ℕ → IoWork) (p f : ℕ) (xs : List ℕ) (a b : ℕ) (ys : List ℕ) (l n : ℕ)
    → Seg q p f xs a b
    → Seg q a b ys l n
    → Seg q p f (xs ++ ys) l n
Seg-append q p f [] a b ys l n (e, k) s = rw (e, sym k) s
Seg-append q p f (x ∷ xs) a b ys l n (e, k, s) t =
    (e, k, Seg-append q x (q x).next xs a b ys l n s t)

pub Fwd-append :
    (q : ℕ → IoWork) (p f : ℕ) (xs : List ℕ) (a b : ℕ) (ys : List ℕ) (l n : ℕ)
    → Fwd q p f xs a b
    → Fwd q a b ys l n
    → Fwd q p f (xs ++ ys) l n
Fwd-append q p f [] a b ys l n (e, k) s = rw (e, sym k) s
Fwd-append q p f (x ∷ xs) a b ys l n (e, s) t = (e, Fwd-append q x (q x).next xs a b ys l n s t)

-- A chain at one of its places.
pub record SegAt (q : ℕ → IoWork) (p f : ℕ) (xs : List ℕ) (c : ℕ) (ys : List ℕ) (l n : ℕ)
    : Type 0 where
  pub from_last : ℕ
  pub front : Seg q p f xs from_last c
  pub back_link : (q c).prev ≡ from_last
  pub rest : Seg q c (q c).next ys l n

pub Seg-at :
    (q : ℕ → IoWork) (p f : ℕ) (xs : List ℕ) (c : ℕ) (ys : List ℕ) (l n : ℕ)
    → Seg q p f (xs ++ (c ∷ ys)) l n
    → SegAt q p f xs c ys l n
Seg-at q p f [] c ys l n (e, k, s) = record {
  from_last = p;
  front = (e, refl);
  back_link = k;
  rest = s;
}
Seg-at q p f (x ∷ xs) c ys l n (e, k, s) =
    let r = Seg-at q x (q x).next xs c ys l n s in
    record {
      from_last = r.from_last;
      front = (e, k, r.front);
      back_link = r.back_link;
      rest = r.rest;
    }

-- The last entry of a chain that has one.
pub record SegLast (q : ℕ → IoWork) (p f : ℕ) (xs : List ℕ) (l n : ℕ) : Type 0 where
  pub others : List ℕ
  pub parts : xs ≡ others ++ (l ∷ [])
  pub front : Seg q p f others (q l).prev l
  pub ends : (q l).next ≡ n

pub Seg-last :
    (q : ℕ → IoWork) (p f x : ℕ) (xs : List ℕ) (l n : ℕ)
    → Seg q p f (x ∷ xs) l n
    → SegLast q p f (x ∷ xs) l n
Seg-last q p f x [] l n (e, k, (s, t)) = record {
  others = [];
  parts = ap (λ (y : ℕ). y ∷ []) (sym t);
  front = (e ∙ sym t, rw t k);
  ends = rw t s;
}
Seg-last q p f x (y ∷ ys) l n (e, k, s) =
    let r = Seg-last q x (q x).next y ys l n s in
    record {
      others = x ∷ r.others;
      parts = ap (λ (zs : List ℕ). x ∷ zs) r.parts;
      front = (e, k, r.front);
      ends = r.ends;
    }
