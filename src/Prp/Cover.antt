-- ===== src/Prp/Cover.antt =====
-- What the walk copies: the whole length, piece after piece, each piece within a page.
use nvmevirt_slc_cache.Common.{
  ℕ, zero, suc, ◌+◌, ◌-◌, ◌%◌, ◌≤◌, ◌<◌, ◌≡◌, ◌⊎◌, inl, inr, refl, arith, Option, none, some, List,
  [], ◌∷◌, ltb, ◌==◌, ==_iff, false, Bool-cases, Returns,
}
use nvmevirt_slc_cache.Prp.{
  page_size, Copy, Walk, Prps, list_entry, next_paddr, chunk, walk, transfer,
}

-- The copies fill `offset … offset + length` without a gap, each within one page of memory.
abbrev pub Covers : ℕ → ℕ → List Copy → Type 0
Covers offset length [] = length ≡ 0
Covers offset length (c ∷ rest) =
    (c.offset ≡ offset)
    × (0 < c.size)
    × (c.size ≤ length)
    × (c.paddr % page_size + c.size ≤ page_size)
    × Covers (offset + c.size) (length - c.size) rest

chunk_bounds :
    (paddr remaining : ℕ)
    → 0 < remaining
    → (0 < chunk paddr remaining)
      × (chunk paddr remaining ≤ remaining)
      × (paddr % page_size + chunk paddr remaining ≤ page_size)
unfolding chunk
chunk_bounds paddr remaining h = ground arith

-- What prp2 has to be when so many bytes remain after the first region: the last page, from its start
-- on, or a list.
abbrev pub Reaches : Prps → ℕ → Type 0
Reaches x remaining = (x.prp2 % page_size ≡ 0) ⊎ (page_size < remaining)

-- The walk finds an address in each of its stages.
data Ready (x : Prps) (remaining : ℕ) (w : Walk) : Type 0 where
  over : remaining ≡ 0 → Ready x remaining w
  first : w.prp_offs ≡ 0 → Reaches x (remaining - chunk x.prp1 remaining) → Ready x remaining w
  second : w.prp_offs ≡ 1 → Reaches x remaining → Ready x remaining w
  listed : (base : ℕ) → 2 ≤ w.prp_offs → w.list ≡ some base → Ready x remaining w

record Found (x : Prps) (remaining : ℕ) (w : Walk) : Type 0 where
  paddr : ℕ
  next : Walk
  found : next_paddr x remaining w ≡ some (paddr, next)
  ready : Ready x (remaining - chunk paddr remaining) next

-- A page that holds all that remains ends the walk.
last_chunk : (paddr r : ℕ) → paddr % page_size ≡ 0 → r ≤ page_size → r - chunk paddr r ≡ 0
unfolding chunk
last_chunk paddr r h k = ground arith

second-Found : (x : Prps) (r : ℕ) (w : Walk) → w.prp_offs ≡ 1 → Reaches x r → Found x r w
unfolding next_paddr list_entry
second-Found x r w h k = elim (Bool-cases (ltb page_size r)) [
  | inl e ↦ record {
    paddr = x.entry (x.list_base x.prp2) w.prp2_offs;
    next = record {
      prp_offs = w.prp_offs + 1;
      prp2_offs = w.prp2_offs + 1;
      list = some (x.list_base x.prp2);
    };
    found = ground arith;
    ready = listed (x.list_base x.prp2) (omega arith) refl;
  }
  | inr e ↦ record {
    paddr = x.prp2;
    next = record w { prp_offs = w.prp_offs + 1 };
    found = ground arith;
    ready = over (last_chunk x.prp2 r (aligned k e) (ground arith));
  }
]
  where
    aligned : Reaches x r → ltb page_size r ≡ false → x.prp2 % page_size ≡ 0
    aligned (inl a) e = a
    aligned (inr a) e = absurd (ground arith)

next_paddr-Found : (x : Prps) (r : ℕ) (w : Walk) → 0 < r → Ready x r w → Found x r w
unfolding next_paddr list_entry
next_paddr-Found x r w p (over e) = absurd (omega arith)
next_paddr-Found x r w p (first e k) = record {
  paddr = x.prp1;
  next = record w { prp_offs = w.prp_offs + 1 };
  found = ground arith;
  ready = second (omega arith) k;
}
next_paddr-Found x r w p (second e k) = second-Found x r w e k
next_paddr-Found x r w p (listed base e l) = record {
  paddr = x.entry base w.prp2_offs;
  next = record w { prp_offs = w.prp_offs + 1; prp2_offs = w.prp2_offs + 1 };
  found = ground arith;
  ready = listed base (omega arith) l;
}

walk-Covers :
    (fuel : ℕ) (x : Prps) (remaining offset : ℕ) (w : Walk)
    → remaining ≤ fuel
    → Ready x remaining w
    → Returns (Covers offset remaining) (walk fuel x remaining offset w)
unfolding walk
walk-Covers zero x r offset w l g = let e : r ≡ 0 = omega arith in rw ((==_iff r 0).1 e) e
walk-Covers (suc fuel) x r offset w l g = elim (Bool-cases (r == 0)) [
  | inl e ↦ rw e ((==_iff r 0).0 e)
  | inr e ↦
      let p : 0 < r = ground arith in
      let f = next_paddr-Found x r w p g in
      let b = chunk_bounds f.paddr r p in
      rw (e, f.found)
        (cons_Covers f.paddr b (walk fuel x (r - chunk f.paddr r) (offset + chunk f.paddr r) f.next)
          (walk-Covers fuel x (r - chunk f.paddr r) (offset + chunk f.paddr r) f.next
            (omega (arith, b)) f.ready))
]
  where
    cons_Covers :
        (paddr : ℕ)
        → (0 < chunk paddr r)
          × (chunk paddr r ≤ r)
          × (paddr % page_size + chunk paddr r ≤ page_size)
        → (rest : Option (List Copy))
        → Returns (Covers (offset + chunk paddr r) (r - chunk paddr r)) rest
        → Returns (Covers offset r) (elim rest [
          | none ↦ none
          | some cs ↦ some (record { paddr = paddr; offset = offset; size = chunk paddr r } ∷ cs)
        ])
    cons_Covers paddr b none h = h
    cons_Covers paddr b (some cs) h = (refl, b.0, b.1, b.2, h)

-- Where prp2 is page-aligned, or more than a page remains after the first region so that it
-- points to a list, a transfer ends without following a null pointer, and its pieces fill the
-- range of the buffer without a gap or an overlap, each within one page of memory.
pub transfer-Covers :
    (x : Prps) (offset length : ℕ)
    → Reaches x (length - chunk x.prp1 length)
    → Returns (Covers offset length) (transfer x offset length)
unfolding transfer
transfer-Covers x offset length h =
    walk-Covers length x length offset _ (omega arith) (first refl h)
