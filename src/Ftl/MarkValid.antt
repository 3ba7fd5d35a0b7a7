-- ===== src/Ftl/MarkValid.antt =====
-- `mark_page_valid` and the counts.
use nvmevirt_slc_cache.Common.{
  ℕ, ◌+◌, ◌*◌, ◌≤◌, ◌<◌, ◌≡◌, refl, sym, ◌∙◌, arith, subst, lt→ltb, true≢false, Returns, Returns-if,
  Returns-elim, update,
}
use nvmevirt_slc_cache.Ppa.{Ppa}
use nvmevirt_slc_cache.Nand.{Ssd, pg_free, pg_valid, get_blk, is_valid}
use nvmevirt_slc_cache.Ftl.State.{
  ConvFtl, Line, LineMgmt, lm_of, set_lm, line_at, pgs_per_blk_of, pgs_per_line_of,
}
use nvmevirt_slc_cache.Ftl.Mapping.{page_area, get_line}
use nvmevirt_slc_cache.Ftl.Pages.{mark_page_valid}
use nvmevirt_slc_cache.Ftl.Blocks.{Marked, status_of}
use nvmevirt_slc_cache.Ftl.Counts.{IsCounted, pages_with_le}
use nvmevirt_slc_cache.Ftl.CountMarks.{Accounted, validate_in_block-IsCounted}
use nvmevirt_slc_cache.Ftl.LineSums.{
  blk_at, line_sum, InBlocks, AllCounted, line_sum_change, line_sum_le,
}
use nvmevirt_slc_cache.Ftl.Recount.{Relined, recount, recount_blocks}
use nvmevirt_slc_cache.Ftl.Relines.{Kept, set_lm-Kept, set_lm-Relined, ssd-set_lm}

-- A page of the array, and the lines made of whole blocks.
pub record OnLine (s : ConvFtl) (p : Ppa) : Type 0 where
  pub blocks_in : InBlocks s.ssd.sp p
  pub pg_in : p.pg < pgs_per_blk_of s.ssd.sp (page_area s p)
  pub slc_lines : s.slm.tt_lines ≡ s.ssd.sp.tt_lines_slc
  pub whole_blocks :
      pgs_per_line_of s.ssd.sp (page_area s p)
      ≡ s.ssd.sp.nchs * (s.ssd.sp.luns_per_ch * pgs_per_blk_of s.ssd.sp (page_area s p))

-- The valid pages of the line of a page, as the sum over its blocks.
pub line_valid_sum :
    (s : ConvFtl) (p : Ppa)
    → AllCounted s
    → InBlocks s.ssd.sp p
    → (line_at s (get_line s p)).vpc ≡ line_sum (λ x. x.vpc) s.ssd.sp s.ssd p.blk
unfolding get_line
line_valid_sum s p all v = (all.lines p.blk v.blk_in).line_valid

pub line_invalid_sum :
    (s : ConvFtl) (p : Ppa)
    → AllCounted s
    → InBlocks s.ssd.sp p
    → (line_at s (get_line s p)).ipc ≡ line_sum (λ x. x.ipc) s.ssd.sp s.ssd p.blk
unfolding get_line
line_invalid_sum s p all v = (all.lines p.blk v.blk_in).line_invalid

-- A line has room for the page that was just marked valid in its block.
line_room :
    (s : ConvFtl) (e : Ssd) (p : Ppa) {i : ℕ}
    → AllCounted s
    → OnLine s p
    → Marked s.ssd p pg_valid i ((get_blk s.ssd p).vpc + 1) e
    → IsCounted (pgs_per_blk_of s.ssd.sp (page_area s p)) (get_blk e p)
    → (line_at s (get_line s p)).vpc < pgs_per_line_of s.ssd.sp (page_area s p)
line_room s e p all o m c =
    omega (arith, o.whole_blocks, line_valid_sum s p all o.blocks_in, m.valid_here, change, bound)
  where
    n : ℕ
    n = pgs_per_blk_of s.ssd.sp (page_area s p)

    change :
        line_sum (λ x. x.vpc) s.ssd.sp e p.blk + (get_blk s.ssd p).vpc
        ≡ line_sum (λ x. x.vpc) s.ssd.sp s.ssd p.blk + (get_blk e p).vpc
    change = line_sum_change (λ x. x.vpc) s.ssd.sp s.ssd e p o.blocks_in m.valid_elsewhere

    bound : line_sum (λ x. x.vpc) s.ssd.sp e p.blk ≤ s.ssd.sp.nchs * (s.ssd.sp.luns_per_ch * n)
    bound =
        line_sum_le (λ x. x.vpc) s.ssd.sp e p.blk n
          (λ ch lun lc ll. omega (
            arith,
            pages_with_le is_valid n (get_blk e (blk_at ch lun p.blk)).pg,
            (recount_blocks s e p all m c (blk_at ch lun p.blk) (record {
              ch_in = lc;
              lun_in = ll;
              pl_zero = refl;
              blk_in = o.blocks_in.blk_in;
            })).valid_pages,
          ))

-- The counts are right, the page is valid in them, and the rest of the instance is as before.
abbrev pub Validated : ConvFtl → Ppa → Unit {0} × ConvFtl → Type 0
Validated s p r =
    AllCounted r.1
    × Marked s.ssd p pg_valid (get_blk s.ssd p).ipc ((get_blk s.ssd p).vpc + 1) r.1.ssd
    × Kept s r.1

-- A free page on a line of an instance whose counts are right is made valid: no assertion fails,
-- and all counts of blocks and lines are right again.
pub mark_page_valid-AllCounted :
    (s : ConvFtl) (p : Ppa)
    → AllCounted s
    → OnLine s p
    → status_of s.ssd p ≡ pg_free
    → Returns (Validated s p) (mark_page_valid p s)
unfolding mark_page_valid
mark_page_valid-AllCounted s p all o h =
    Returns-elim (Accounted n pg_valid (get_blk s.ssd p).ipc ((get_blk s.ssd p).vpc + 1) p s.ssd)
      (Validated s p) _ _
      (validate_in_block-IsCounted n p s.ssd o.pg_in (all.blocks p o.blocks_in) h)
      (λ u e (c, m).
        Returns-if (Validated s p) _ _ _
          (λ t. (
            recount s (after e) p all o.blocks_in (marked e m) (relined e) (counted e c) refl
                (omega arith),
            marked e m,
            set_lm-Kept s e (get_line s p).area m' refl m.params,
          ))
          (λ f. absurd (true≢false (sym (lt→ltb _ _ (line_room s e p all o m c)) ∙ f))))
  where
    n : ℕ
    n = pgs_per_blk_of s.ssd.sp (page_area s p)

    l : Line
    l = line_at s (get_line s p)

    m' : LineMgmt
    m' =
        let m = lm_of s (get_line s p).area in
        record m { lines = update m.lines (get_line s p).idx (record l { vpc = l.vpc + 1 }) }

    after : Ssd → ConvFtl
    after e = set_lm (record s { ssd = e }) (get_line s p).area m'

    marked :
        (e : Ssd)
        → Marked s.ssd p pg_valid (get_blk s.ssd p).ipc ((get_blk s.ssd p).vpc + 1) e
        → Marked s.ssd p pg_valid (get_blk s.ssd p).ipc ((get_blk s.ssd p).vpc + 1) (after e).ssd
    marked e =
        subst (Marked s.ssd p pg_valid (get_blk s.ssd p).ipc ((get_blk s.ssd p).vpc + 1))
          (sym (ssd-set_lm s e (get_line s p).area m'))

    counted : (e : Ssd) → IsCounted n (get_blk e p) → IsCounted n (get_blk (after e).ssd p)
    counted e =
        subst (λ (x : Ssd). IsCounted n (get_blk x p)) (sym (ssd-set_lm s e (get_line s p).area m'))

    relined : (e : Ssd) → Relined s p l.ipc (l.vpc + 1) (after e)
    relined e = set_lm-Relined s e p m' l.ipc (l.vpc + 1) (record {
      tt_lines = refl;
      ipc_here = ground arith;
      vpc_here = ground arith;
      ipc_elsewhere = λ j ne. ground arith;
      vpc_elsewhere = λ j ne. ground arith;
    })
