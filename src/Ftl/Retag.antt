-- ===== src/Ftl/Retag.antt =====
-- A physical page gets a status and an owner in the reverse map: what that changes, page by page.
use nvmevirt_slc_cache.Common.{
  ℕ, ◌≡◌, ◌≢◌, sym, ap, ◌∙◌, arith, true, false, subst, if◌then◌else◌, update, update_self,
  update_ne, true≢false,
}
use nvmevirt_slc_cache.Params.{SsdParams}
use nvmevirt_slc_cache.Params.Geometry.{IsSlcGeometry}
use nvmevirt_slc_cache.Ppa.{Ppa}
use nvmevirt_slc_cache.Nand.{PageStatus}
use nvmevirt_slc_cache.Nand.Access.{same_pg}
use nvmevirt_slc_cache.Ftl.State.{slc_mode, ConvFtl}
use nvmevirt_slc_cache.Ftl.Mapping.{pgidx, valid_ppa}
use nvmevirt_slc_cache.Ftl.Index.{pgidx_injective}
use nvmevirt_slc_cache.Ftl.Addresses.{SamePage, valid_ppa-InArray}
use nvmevirt_slc_cache.Ftl.Blocks.{status_of}
use nvmevirt_slc_cache.Ftl.Consistency.{IsLaidOut, rmap_of}

pub same_pg-SamePage : (q p : Ppa) → same_pg q p ≡ true → SamePage q p
same_pg-SamePage q p h = ground arith

pub SamePage-same_pg : (q p : Ppa) → SamePage q p → same_pg q p ≡ true
SamePage-same_pg q p h = ground arith

pub pgidx_same :
    (spp : SsdParams) (q p : Ppa) → SamePage q p → pgidx spp slc_mode q ≡ pgidx spp slc_mode p
unfolding pgidx
pgidx_same spp q p (c, l, pl, b, g) = rw (c, l, pl, b, g)

-- The layout stays.
pub record SameLayout (s t : ConvFtl) : Type 0 where
  pub layout_mode : t.slc_mode ≡ s.slc_mode
  pub layout_lines : t.slm.tt_lines ≡ s.slm.tt_lines
  pub layout_params : t.ssd.sp ≡ s.ssd.sp

pub SameLayout-valid_ppa :
    (s t : ConvFtl) (q : Ppa) → SameLayout s t → valid_ppa t q ≡ valid_ppa s q
unfolding valid_ppa
SameLayout-valid_ppa s t q l = rw (l.layout_mode, l.layout_lines, l.layout_params)

pub SameLayout-IsLaidOut : (s t : ConvFtl) → SameLayout s t → IsLaidOut s → IsLaidOut t
SameLayout-IsLaidOut s t l g = record {
  slc = record {
    mode = l.layout_mode ∙ g.slc.mode;
    lines =
        l.layout_lines ∙ g.slc.lines ∙ ap (λ (x : SsdParams). x.tt_lines_slc) (sym l.layout_params);
    geometry = subst IsSlcGeometry (sym l.layout_params) g.slc.geometry;
  };
  one_plane = ap (λ (x : SsdParams). x.pls_per_lun) l.layout_params ∙ g.one_plane;
}

pub record Retagged (s : ConvFtl) (p : Ppa) (status : PageStatus) (owner : ℕ) (t : ConvFtl)
    : Type 0 where
  pub layout : SameLayout s t
  pub statuses : (q : Ppa) → status_of t.ssd q ≡ (if same_pg q p then status else status_of s.ssd q)
  pub owners : t.rmap ≡ update s.rmap (pgidx s.ssd.sp slc_mode p) owner

module _ (s t : ConvFtl) (p : Ppa) {status : PageStatus} {owner : ℕ}
    (r : Retagged s p status owner t) where
  rmap_of_tagged :
      (q : Ppa)
      → rmap_of t q ≡ update s.rmap (pgidx s.ssd.sp slc_mode p) owner (pgidx s.ssd.sp slc_mode q)
  rmap_of_tagged q =
      ap (λ (x : SsdParams). t.rmap (pgidx x slc_mode q)) r.layout.layout_params
      ∙ ap (λ (f : ℕ → ℕ). f (pgidx s.ssd.sp slc_mode q)) r.owners

  pub tagged_here :
      (q : Ppa) → same_pg q p ≡ true → (status_of t.ssd q ≡ status) × (rmap_of t q ≡ owner)
  tagged_here q h = (
    r.statuses q ∙ (rw h),
    rmap_of_tagged q
        ∙ ap (update s.rmap (pgidx s.ssd.sp slc_mode p) owner)
            (pgidx_same s.ssd.sp q p (same_pg-SamePage q p h))
        ∙ update_self s.rmap (pgidx s.ssd.sp slc_mode p) owner,
  )

  -- The indices of two valid pages differ, so the owner of another page stays.
  pub tagged_elsewhere :
      IsLaidOut s
      → (q : Ppa) → valid_ppa s p ≡ true
      → valid_ppa s q ≡ true
      → same_pg q p ≡ false
      → (status_of t.ssd q ≡ status_of s.ssd q) × (rmap_of t q ≡ rmap_of s q)
  tagged_elsewhere g q vp vq h =
      (r.statuses q ∙ (rw h), rmap_of_tagged q ∙ update_ne s.rmap owner apart)
    where
      apart : pgidx s.ssd.sp slc_mode q ≢ pgidx s.ssd.sp slc_mode p
      apart e = true≢false (
          sym (
            SamePage-same_pg q p (
              pgidx_injective s.ssd.sp g.slc.geometry q p (valid_ppa-InArray s q g.slc vq)
                (valid_ppa-InArray s p g.slc vp) e))
          ∙ h)
