-- ===== src/Io/Places.antt =====
-- Where `__insert_req_sorted` puts an entry.
use nvmevirt_slc_cache.Common.{
  ℕ, zero, suc, ◌≡◌, ◌≤◌, ◌<◌, refl, sym, ap, ◌∙◌, subst, List, [], ◌∷◌, ◌++◌, arith, length,
  length-append, leb, ◌==◌, max, Returns, Returns-if, Returns-mono,
}
use nvmevirt_slc_cache.Io.{IoWork, nr_max_parallel_io, nil, find_place}
use nvmevirt_slc_cache.Io.Chains.{All, All-append, All-parts, Seg, Seg-last, SegLast}

-- An entry that exists.
abbrev pub Within : ℕ → Type 0
Within x = x < nr_max_parallel_io

-- The time by which the queue is ordered: the target, or the worker's time if that is later.
abbrev pub due : (ℕ → IoWork) → ℕ → ℕ → ℕ
due q latest x = max (q x).nsecs_target latest

-- The place after the entry `r` of a chain, or before all of it.
pub data Place (q : ℕ → IoWork) (latest target : ℕ) (xs : List ℕ) (r : ℕ) : Type 0 where
  front : r ≡ nil → All (λ x. max target latest < due q latest x) xs → Place q latest target xs r
  after :
      (us vs : List ℕ)
      → xs ≡ us ++ (r ∷ vs)
      → due q latest r ≤ max target latest
      → All (λ x. max target latest < due q latest x) vs
      → Place q latest target xs r

append_assoc : (us vs ws : List ℕ) → (us ++ vs) ++ ws ≡ us ++ (vs ++ ws)
append_assoc [] vs ws = refl
append_assoc (u ∷ us) vs ws = ap (λ (zs : List ℕ). u ∷ zs) (append_assoc us vs ws)

Place-snoc :
    (q : ℕ → IoWork) (latest target : ℕ) (xs : List ℕ) (c r : ℕ)
    → max target latest < due q latest c
    → Place q latest target xs r
    → Place q latest target (xs ++ (c ∷ [])) r
Place-snoc q latest target xs c r h (front e a) =
    front e (All-append (λ x. max target latest < due q latest x) xs (c ∷ []) a (h, tt))
Place-snoc q latest target xs c r h (after us vs e d a) =
    after us (vs ++ (c ∷ []))
      (ap (λ (zs : List ℕ). zs ++ (c ∷ [])) e ∙ append_assoc us (r ∷ vs) (c ∷ [])) d
      (All-append (λ x. max target latest < due q latest x) vs (c ∷ []) a (h, tt))

pub find_place-Place :
    (fuel : ℕ) (q : ℕ → IoWork) (latest target f : ℕ) (xs : List ℕ) (c n : ℕ)
    → Seg q nil f xs c n
    → All Within xs
    → length xs < fuel
    → Returns (Place q latest target xs) (find_place fuel q latest target c)
unfolding find_place
find_place-Place zero q latest target f xs c n s w l = absurd (omega arith)
find_place-Place (suc fuel) q latest target f [] c n (e, k) w l =
    Returns-if (Place q latest target []) (c == nil) _ _ (λ _. front refl tt)
      (λ h. absurd (ground arith))
find_place-Place (suc fuel) q latest target f (x ∷ xs) c n s w l =
    Returns-if P (c == nil) _ _ (λ h. absurd (ground (arith, inside)))
      λ _.
        Returns-if P (leb (q c).nsecs_target latest) _ _
          (λ h. after t.others [] t.parts (ground arith) tt)
          λ h.
            Returns-if P (leb (q c).nsecs_target target) _ _
              (λ k. after t.others [] t.parts (ground arith) tt)
              λ k.
                Returns-mono (Place q latest target t.others) P
                  (λ r p.
                    subst (λ (zs : List ℕ). Place q latest target zs r) (sym t.parts)
                      (Place-snoc q latest target t.others c r (ground arith) p))
                  _
                  (find_place-Place fuel q latest target f t.others (q c).prev c t.front parts.0
                    shorter)
  where
    P : ℕ → Type 0
    P r = Place q latest target (x ∷ xs) r

    t : SegLast q nil f (x ∷ xs) c n
    t = Seg-last q nil f x xs c n s

    parts : All Within t.others × All Within (c ∷ [])
    parts = All-parts Within t.others (c ∷ []) (subst (λ (zs : List ℕ). All Within zs) t.parts w)

    inside : c < nr_max_parallel_io
    inside = parts.1.0

    shorter : length t.others < fuel
    shorter = omega (arith, l, ap length t.parts, length-append t.others (c ∷ []))
