-- ===== src/Ftl/Fresh.antt =====
-- `conv_init_ftl`: the state in which an instance starts.
use nvmevirt_slc_cache.Common.{
  ℕ, ◌≤◌, ◌≡◌, refl, sym, ap, ◌∙◌, arith, Bool, true, false, ltb, subst, true≢false, sum_below_le,
}
use nvmevirt_slc_cache.Params.{SsdParams}
use nvmevirt_slc_cache.Params.Geometry.{IsSlcGeometry}
use nvmevirt_slc_cache.Ppa.{Ppa, mapped_ppa, unmapped_ppa}
use nvmevirt_slc_cache.Nand.{
  Ssd, PageStatus, pg_free, is_valid, NandBlock, get_blk, get_pg, ssd_init,
}
use nvmevirt_slc_cache.Ftl.State.{LineMode, slc_mode, ConvFtl, lm_of, pgs_per_blk_of}
use nvmevirt_slc_cache.Ftl.Mapping.{page_area}
use nvmevirt_slc_cache.Ftl.Blocks.{status_of}
use nvmevirt_slc_cache.Ftl.Counts.{IsCounted, pages_with, is_invalid, weight}
use nvmevirt_slc_cache.Ftl.LineSums.{line_sum, line_sum_le, blk_at}
use nvmevirt_slc_cache.Ftl.Consistency.{IsLaidOut, IsConsistent, All}

-- A flash as `ssd_init` makes it, lines that count no page, and no logical page with a page.
pub record Fresh (spp : SsdParams) (s : ConvFtl) : Type 0 where
  pub flash : s.ssd ≡ ssd_init spp
  pub cached : s.slc_mode ≡ slc_mode
  pub cache_lines : s.slm.tt_lines ≡ spp.tt_lines_slc
  pub no_valid : (a : LineMode) (i : ℕ) → ((lm_of s a).lines i).vpc ≡ 0
  pub no_invalid : (a : LineMode) (i : ℕ) → ((lm_of s a).lines i).ipc ≡ 0
  pub unmapped : (l : ℕ) → s.maptbl l ≡ unmapped_ppa

init_block :
    (spp : SsdParams) (q : Ppa)
    → ((get_blk (ssd_init spp) q).vpc ≡ 0)
      × ((get_blk (ssd_init spp) q).ipc ≡ 0)
      × ((j : ℕ) → ((get_blk (ssd_init spp) q).pg j).status ≡ pg_free)
unfolding get_blk ssd_init
init_block spp q = go (ltb q.blk spp.tt_lines_slc) refl
  where
    go :
        (b : Bool)
        → ltb q.blk spp.tt_lines_slc ≡ b
        → ((get_blk (ssd_init spp) q).vpc ≡ 0)
          × ((get_blk (ssd_init spp) q).ipc ≡ 0)
          × ((j : ℕ) → ((get_blk (ssd_init spp) q).pg j).status ≡ pg_free)
    go true e = ((rw e), (rw e), λ j. rw e)
    go false e = ((rw e), (rw e), λ j. rw e)

no_page :
    (f : PageStatus → Bool) (n : ℕ) (spp : SsdParams) (q : Ppa)
    → f pg_free ≡ false
    → 0 ≡ pages_with f n (get_blk (ssd_init spp) q).pg
no_page f n spp q h = omega (
  arith,
  sum_below_le (λ j. weight (f ((get_blk (ssd_init spp) q).pg j).status)) n 0 (λ j _. none_of j),
)
  where
    none_of : (j : ℕ) → weight (f ((get_blk (ssd_init spp) q).pg j).status) ≤ 0
    none_of j = rw ((init_block spp q).2 j, h) (omega arith)

pub init-IsCounted : (n : ℕ) (spp : SsdParams) (q : Ppa) → IsCounted n (get_blk (ssd_init spp) q)
init-IsCounted n spp q =
    let b = init_block spp q in
    record {
      valid_pages = b.0 ∙ no_page is_valid n spp q refl;
      invalid_pages = b.1 ∙ no_page is_invalid n spp q refl;
    }

no_sum :
    (f : NandBlock → ℕ) (spp : SsdParams) (d : Ssd) (b : ℕ)
    → ((q : Ppa) → f (get_blk d q) ≡ 0)
    → 0 ≡ line_sum f spp d b
no_sum f spp d b h =
    omega (arith, line_sum_le f spp d b 0 (λ c l _ _. omega (arith, h (blk_at c l b))))

mapped_ppa-unmapped_ppa : mapped_ppa unmapped_ppa ≡ false
unfolding mapped_ppa
mapped_ppa-unmapped_ppa = refl

no_valid_page : (spp : SsdParams) (d : Ssd) → d ≡ ssd_init spp → (q : Ppa) → status_of d q ≡ pg_free
unfolding get_pg
no_valid_page spp d e q =
    subst (λ (x : Ssd). ((get_blk x q).pg q.pg).status ≡ pg_free) (sym e)
      ((init_block spp q).2 q.pg)

-- The invariants of the tables and the counts hold of such a state.
pub Fresh-IsConsistent : (spp : SsdParams) (s : ConvFtl) → Fresh spp s → IsConsistent All s
Fresh-IsConsistent spp s f = record {
  counts = record {
    blocks = λ q _.
        subst (λ (x : Ssd). IsCounted (pgs_per_blk_of s.ssd.sp (page_area s q)) (get_blk x q))
          (sym f.flash) (init-IsCounted _ spp q);
    lines = λ b _. record {
      line_valid =
          f.no_valid _ _
          ∙ no_sum (λ x. x.vpc) s.ssd.sp s.ssd b
              (λ q. subst (λ (x : Ssd). (get_blk x q).vpc ≡ 0) (sym f.flash) (init_block spp q).0);
      line_invalid =
          f.no_invalid _ _
          ∙ no_sum (λ x. x.ipc) s.ssd.sp s.ssd b
              (λ q. subst (λ (x : Ssd). (get_blk x q).ipc ≡ 0) (sym f.flash) (init_block spp q).1);
    };
  };
  owned = λ l _ _ h.
      absurd (true≢false (sym h ∙ ap mapped_ppa (f.unmapped l) ∙ mapped_ppa-unmapped_ppa));
  mapped = λ q _ h.
      absurd (true≢false (sym (ap is_valid h) ∙ ap is_valid (no_valid_page spp s.ssd f.flash q)));
}

pub Fresh-IsLaidOut :
    (spp : SsdParams) (s : ConvFtl)
    → IsSlcGeometry spp
    → spp.pls_per_lun ≡ 1
    → Fresh spp s
    → IsLaidOut s
unfolding ssd_init
Fresh-IsLaidOut spp s g one f =
    let params : spp ≡ s.ssd.sp = sym (ap (λ (x : Ssd). x.sp) f.flash) in
    record {
      slc = record {
        mode = f.cached;
        lines = f.cache_lines ∙ ap (λ (x : SsdParams). x.tt_lines_slc) params;
        geometry = subst IsSlcGeometry params g;
      };
      one_plane = subst (λ (x : SsdParams). x.pls_per_lun ≡ 1) params one;
    }
