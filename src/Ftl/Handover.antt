-- ===== src/Ftl/Handover.antt =====
-- A logical page gives up its physical page, and takes a free one: the tables and the pages.
use nvmevirt_slc_cache.Common.{
  ℕ, ◌<◌, ◌≡◌, ◌≢◌, ◌⊎◌, inl, inr, refl, sym, ap, ◌∙◌, arith, true, false, subst, ◌==◌, ==_iff,
  Bool-cases, update, update_self, update_ne, true≢false,
}
use nvmevirt_slc_cache.Params.{SsdParams}
use nvmevirt_slc_cache.Ppa.{Ppa, mapped_ppa}
use nvmevirt_slc_cache.Nand.{PageStatus, Ssd, get_pg, pg_free, pg_invalid, pg_valid, is_valid}
use nvmevirt_slc_cache.Nand.Access.{same_pg}
use nvmevirt_slc_cache.Ftl.State.{ConvFtl}
use nvmevirt_slc_cache.Ftl.Mapping.{valid_ppa}
use nvmevirt_slc_cache.Ftl.Addresses.{SamePage}
use nvmevirt_slc_cache.Ftl.Blocks.{status_of}
use nvmevirt_slc_cache.Ftl.LineSums.{AllCounted}
use nvmevirt_slc_cache.Ftl.Consistency.{IsLaidOut, IsConsistent, Owned, Mapped, All, rmap_of}
use nvmevirt_slc_cache.Ftl.Retag.{
  Retagged, SameLayout, SameLayout-valid_ppa, same_pg-SamePage, SamePage-same_pg, pgidx_same,
  tagged_here, tagged_elsewhere,
}

-- Every logical page but one.
abbrev pub Not : ℕ → ℕ → Type 0
Not lpn l = l ≢ lpn

invalid-≢-valid : {a : PageStatus} → a ≡ pg_invalid → a ≢ pg_valid
invalid-≢-valid h k = true≢false (sym (ap is_valid (sym h ∙ k)))

pub free-≢-valid : {a : PageStatus} → a ≡ pg_free → a ≢ pg_valid
free-≢-valid h k = true≢false (sym (ap is_valid (sym h ∙ k)))

SamePage-sym : (p q : Ppa) → SamePage p q → SamePage q p
SamePage-sym p q (c, l, pl, b, g) = (sym c, sym l, sym pl, sym b, sym g)

pub status_same : (d : Ssd) (q p : Ppa) → SamePage q p → status_of d q ≡ status_of d p
unfolding get_pg
status_same d q p (c, l, pl, b, g) = rw (c, l, pl, b, g)

-- What is known of a page, seen from the other state, if nothing about the page changed.
keep-Owned :
    (s t : ConvFtl) (l : ℕ) (q : Ppa)
    → SameLayout s t
    → (status_of t.ssd q ≡ status_of s.ssd q) × (rmap_of t q ≡ rmap_of s q)
    → Owned s l q
    → Owned t l q
keep-Owned s t l q layout (a, b) o = record {
  valid_address = SameLayout-valid_ppa s t q layout ∙ o.valid_address;
  valid_page = a ∙ o.valid_page;
  owner = b ∙ o.owner;
}

keep-Mapped :
    (s t : ConvFtl) (q : Ppa)
    → SameLayout s t
    → rmap_of t q ≡ rmap_of s q
    → t.maptbl (rmap_of s q) ≡ s.maptbl (rmap_of s q)
    → Mapped s q
    → Mapped t q
keep-Mapped s t q layout e k m = record {
  lpn_in =
      subst (λ (x : ℕ). x < t.ssd.sp.tt_pgs) (sym e)
        (subst (λ (x : SsdParams). rmap_of s q < x.tt_pgs) (sym layout.layout_params) m.lpn_in);
  is_mapped = ap mapped_ppa entry ∙ m.is_mapped;
  same_page = subst (λ (x : Ppa). SamePage x q) (sym entry) m.same_page;
}
  where
    entry : t.maptbl (rmap_of t q) ≡ s.maptbl (rmap_of s q)
    entry = ap t.maptbl e ∙ k

module _ (s t : ConvFtl) (lpn : ℕ) (g : IsLaidOut s) (counted : AllCounted t)
    (lpn_in : lpn < s.ssd.sp.tt_pgs) where
  -- The page of `lpn` becomes invalid and loses its owner.
  pub release :
      {owner : ℕ}
      → IsConsistent All s
      → mapped_ppa (s.maptbl lpn) ≡ true
      → Retagged s (s.maptbl lpn) pg_invalid owner t
      → t.maptbl ≡ s.maptbl
      → IsConsistent (Not lpn) t
  release c mapped r table = record {
    counts = counted;
    owned = λ l ne l_in h.
        let o =
          c.owned l tt (subst (λ (x : SsdParams). l < x.tt_pgs) r.layout.layout_params l_in)
            (ap (λ (f : ℕ → Ppa). mapped_ppa (f l)) (sym table) ∙ h) in
        subst (Owned t l) (ap (λ (f : ℕ → Ppa). f l) (sym table)) (
          keep-Owned s t l (s.maptbl l) r.layout
            (tagged_elsewhere s t p r g (s.maptbl l) mine.valid_address o.valid_address
              (not_mine l ne o))
            o);
    mapped = λ q v h.
        other_mapped q (sym (SameLayout-valid_ppa s t q r.layout) ∙ v) h (Bool-cases (same_pg q p));
  }
    where
      p : Ppa
      p = s.maptbl lpn

      mine : Owned s lpn p
      mine = c.owned lpn tt lpn_in mapped

      not_mine : (l : ℕ) → l ≢ lpn → Owned s l (s.maptbl l) → same_pg (s.maptbl l) p ≡ false
      not_mine l ne o = elim (Bool-cases (same_pg (s.maptbl l) p)) [
        | inl e ↦ absurd (
            ne (
              sym o.owner
              ∙ ap s.rmap (pgidx_same s.ssd.sp (s.maptbl l) p (same_pg-SamePage (s.maptbl l) p e))
              ∙ mine.owner))
        | inr e ↦ e
      ]

      other_mapped :
          (q : Ppa)
          → valid_ppa s q ≡ true
          → status_of t.ssd q ≡ pg_valid
          → (same_pg q p ≡ true) ⊎ (same_pg q p ≡ false)
          → Not lpn (rmap_of t q) × Mapped t q
      other_mapped q v h (inl e) = absurd (invalid-≢-valid (tagged_here s t p r q e).0 h)
      other_mapped q v h (inr e) =
          let kept = tagged_elsewhere s t p r g q mine.valid_address v e in
          let m = (c.mapped q v (sym kept.0 ∙ h)).1 in
          (
            (λ k.
                let same : SamePage p q =
                  subst (λ (x : ℕ). SamePage (s.maptbl x) q) (sym kept.1 ∙ k) m.same_page in
                true≢false (sym (SamePage-same_pg q p (SamePage-sym p q same)) ∙ e)),
            keep-Mapped s t q r.layout kept.1 (ap (λ (f : ℕ → Ppa). f (rmap_of s q)) table) m,
          )

  -- A free page becomes the page of `lpn`.
  pub acquire :
      (p : Ppa)
      → IsConsistent (Not lpn) s
      → valid_ppa s p ≡ true
      → mapped_ppa p ≡ true
      → status_of s.ssd p ≡ pg_free
      → Retagged s p pg_valid lpn t
      → t.maptbl ≡ update s.maptbl lpn p
      → IsConsistent All t
  acquire p c v mapped free r table = record {
    counts = counted;
    owned = λ l _ l_in h. owned_after l l_in h (Bool-cases (l == lpn));
    mapped = λ q w h. (
      tt,
      mapped_after q (sym (SameLayout-valid_ppa s t q r.layout) ∙ w) h (Bool-cases (same_pg q p)),
    );
  }
    where
      entry : (l : ℕ) → t.maptbl l ≡ update s.maptbl lpn p l
      entry l = ap (λ (f : ℕ → Ppa). f l) table

      entry_lpn : t.maptbl lpn ≡ p
      entry_lpn = entry lpn ∙ update_self s.maptbl lpn p

      entry_other : (l : ℕ) → l ≢ lpn → t.maptbl l ≡ s.maptbl l
      entry_other l ne = entry l ∙ update_ne s.maptbl p ne

      new_owned : Owned t lpn p
      new_owned =
          let here = tagged_here s t p r p (SamePage-same_pg p p (refl, refl, refl, refl, refl)) in
          record {
            valid_address = SameLayout-valid_ppa s t p r.layout ∙ v;
            valid_page = here.0;
            owner = here.1;
          }

      owned_after :
          (l : ℕ)
          → l < t.ssd.sp.tt_pgs
          → mapped_ppa (t.maptbl l) ≡ true
          → ((l == lpn) ≡ true) ⊎ ((l == lpn) ≡ false)
          → Owned t l (t.maptbl l)
      owned_after l l_in h (inl e) =
          let is : l ≡ lpn = (==_iff l lpn).0 e in
          subst (λ (x : ℕ). Owned t x (t.maptbl x)) (sym is)
            (subst (Owned t lpn) (sym entry_lpn) new_owned)
      owned_after l l_in h (inr e) =
          let ne : l ≢ lpn = ground arith in
          let o =
            c.owned l ne (subst (λ (x : SsdParams). l < x.tt_pgs) r.layout.layout_params l_in)
              (ap mapped_ppa (sym (entry_other l ne)) ∙ h) in
          subst (Owned t l) (sym (entry_other l ne)) (
            keep-Owned s t l (s.maptbl l) r.layout
              (tagged_elsewhere s t p r g (s.maptbl l) v o.valid_address
                (not_new (s.maptbl l) o.valid_page))
              o)
        where
          not_new : (q : Ppa) → status_of s.ssd q ≡ pg_valid → same_pg q p ≡ false
          not_new q h = elim (Bool-cases (same_pg q p)) [
            | inl k ↦
                absurd
                  (free-≢-valid free (sym (status_same s.ssd q p (same_pg-SamePage q p k)) ∙ h))
            | inr k ↦ k
          ]

      mapped_after :
          (q : Ppa)
          → valid_ppa s q ≡ true
          → status_of t.ssd q ≡ pg_valid
          → (same_pg q p ≡ true) ⊎ (same_pg q p ≡ false)
          → Mapped t q
      mapped_after q w h (inl e) =
          let same : SamePage q p = same_pg-SamePage q p e in
          let is : rmap_of t q ≡ lpn = (tagged_here s t p r q e).1 in
          let at : t.maptbl (rmap_of t q) ≡ p = ap t.maptbl is ∙ entry_lpn in
          record {
            lpn_in =
                subst (λ (x : ℕ). x < t.ssd.sp.tt_pgs) (sym is)
                  (subst (λ (x : SsdParams). lpn < x.tt_pgs) (sym r.layout.layout_params) lpn_in);
            is_mapped = ap mapped_ppa at ∙ mapped;
            same_page = subst (λ (x : Ppa). SamePage x q) (sym at) (SamePage-sym q p same);
          }
      mapped_after q w h (inr e) =
          let kept = tagged_elsewhere s t p r g q v w e in
          let old = c.mapped q w (sym kept.0 ∙ h) in
          keep-Mapped s t q r.layout kept.1 (entry_other (rmap_of s q) old.0) old.1
