-- ===== src/Common/State.antt =====
-- Code that changes a state `S` and may stop the kernel: `none` stands for a failed `NVMEV_ASSERT`
-- (`BUG_ON`), a null pointer followed, or a value read before it was set.
use Prim.Native.Nat.{ℕ, zero, suc, ◌+◌}
use mathlib.Core.Path.{◌≡◌, refl, sym, subst}
use mathlib.Core.Bool.{Bool, true, false}
use mathlib.Core.Option.{Option, none, some}
use nvmevirt_slc_cache.Common.Tests.{if◌then◌else◌}

abbrev pub St : Type 0 → Type 0 → Type 0
St S A = S → Option (A × S)

infixl 5 ◌>>=◌ ◌>>◌
abbrev pub ◌>>=◌ : {S A B : Type 0} → St S A → (A → St S B) → St S B
◌>>=◌ m f s = elim (m s) [ none ↦ none | some (a, s') ↦ f a s' ]

abbrev pub ◌>>◌ : {S B : Type 0} → St S (Unit {0}) → St S B → St S B
m >> k = m >>= λ _. k

abbrev pub return : {S A : Type 0} → A → St S A
return a s = some (a, s)

abbrev pub get : {S : Type 0} → St S S
get s = some (s, s)

abbrev pub modify : {S : Type 0} → (S → S) → St S (Unit {0})
modify f s = some (tt, f s)

-- `NVMEV_ASSERT`
abbrev pub assert : {S : Type 0} → Bool → St S (Unit {0})
assert true s = some (tt, s)
assert false s = none

-- A pointer followed.
abbrev pub deref : {S A : Type 0} → Option A → St S A
deref none s = none
deref (some a) s = some (a, s)

abbrev pub when : {S : Type 0} → Bool → St S (Unit {0}) → St S (Unit {0})
when true m s = m s
when false m s = some (tt, s)

-- `for (k = i; k < i + n; k++) body(k);`
unfoldable pub for_range : {S : Type 0} → ℕ → ℕ → (ℕ → St S (Unit {0})) → St S (Unit {0})
for_range zero i body s = some (tt, s)
for_range (suc n) i body s = elim (body i s) [
  | none ↦ none
  | some (_, s') ↦ for_range n (i + 1) body s'
]

-- What holds of a result that is there, and that it is there.
abbrev pub Returns : {A : Type 0} → (A → Type 0) → Option A → Type 0
Returns P none = ⊥
Returns P (some a) = P a

pub Returns-if :
    {A : Type 0} (P : A → Type 0) (b : Bool) (x y : Option A)
    → (b ≡ true → Returns P x)
    → (b ≡ false → Returns P y)
    → Returns P (if b then x else y)
Returns-if P true x y h k = h refl
Returns-if P false x y h k = k refl

pub Returns-mono :
    {A : Type 0} (P Q : A → Type 0)
    → ((a : A) → P a → Q a)
    → (o : Option A) → Returns P o
    → Returns Q o
Returns-mono P Q f none h = h
Returns-mono P Q f (some a) h = f a h

-- A guarded result that is there passed its guard.
pub if-eq-some :
    {A : Type 0} (b : Bool) (o : Option A) {y : A}
    → (if b then o else none) ≡ some y
    → (b ≡ true) × (o ≡ some y)
if-eq-some true o h = (refl, h)
if-eq-some false o h = cc

pub Returns-elim :
    {S A B : Type 0} (P : A × S → Type 0) (Q : B → Type 0) (o : Option (A × S))
    (f : A → S → Option B)
    → Returns P o
    → ((a : A) (s' : S) → P (a, s') → Returns Q (f a s'))
    → Returns Q (elim o [ none ↦ none | some (a, s') ↦ f a s' ])
Returns-elim P Q none f h k = h
Returns-elim P Q (some (a, s')) f h k = k a s' h

-- The rule for a bind.
pub Returns->>= :
    {S A B : Type 0} (P : A × S → Type 0) (Q : B × S → Type 0) (m : St S A) (f : A → St S B) (s : S)
    → Returns P (m s)
    → ((a : A) (s' : S) → P (a, s') → Returns Q (f a s'))
    → Returns Q ((m >>= f) s)
Returns->>= P Q m f s h k = Returns-elim P Q (m s) (λ a s'. f a s') h k

pub Returns-then :
    {A B : Type 0} (P : A → Type 0) (Q : B → Type 0) (o : Option A) (f : A → Option B)
    → Returns P o
    → ((a : A) → P a → Returns Q (f a))
    → Returns Q (elim o [ none ↦ none | some a ↦ f a ])
Returns-then P Q none f h k = h
Returns-then P Q (some a) f h k = k a h

-- A step whose result is known.
pub Returns-step :
    {S A B : Type 0} (Q : B → Type 0) (o : Option (A × S)) (f : A → S → Option B) {a : A} {s' : S}
    → o ≡ some (a, s')
    → Returns Q (f a s')
    → Returns Q (elim o [ none ↦ none | some (b, t) ↦ f b t ])
Returns-step Q o f e h =
    subst (λ x. Returns Q (elim x [ none ↦ none | some (b, t) ↦ f b t ])) (sym e) h

-- A result, or what stands in for it.
abbrev pub value_or : {A : Type 0} → A → Option A → A
value_or d none = d
value_or d (some a) = a

pub Returns-value_or :
    {A : Type 0} (P : A → Type 0) (d : A) (o : Option A) → Returns P o → P (value_or d o)
Returns-value_or P d none h = absurd h
Returns-value_or P d (some a) h = h
