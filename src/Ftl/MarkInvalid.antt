-- ===== src/Ftl/MarkInvalid.antt =====
-- `mark_page_invalid` and the counts.
use nvmevirt_slc_cache.Common.{
  ℕ, ◌+◌, ◌-◌, ◌≤◌, ◌<◌, ◌≡◌, refl, sym, ◌∙◌, arith, subst, ==_iff, true≢false, Returns, Returns-if,
  Returns-elim, Returns-then, Option, none, some,
}
use nvmevirt_slc_cache.Ppa.{Ppa}
use nvmevirt_slc_cache.Nand.{Ssd, pg_invalid, pg_valid, get_blk, is_valid}
use nvmevirt_slc_cache.Ftl.State.{
  LineMode, ConvFtl, Line, LineRef, LineMgmt, Pqueue, lm_of, set_lm, line_at, pgs_per_blk_of,
  pgs_per_line_of,
}
use nvmevirt_slc_cache.Ftl.Mapping.{page_area, get_line}
use nvmevirt_slc_cache.Ftl.Pages.{mark_page_invalid, invalidate_line}
use nvmevirt_slc_cache.Ftl.Blocks.{Marked, mark, mark-Marked, status_of}
use nvmevirt_slc_cache.Ftl.Counts.{IsCounted, IsCounted-bounded, pages_with-pos}
use nvmevirt_slc_cache.Ftl.CountMarks.{Accounted, invalidate_in_block-IsCounted}
use nvmevirt_slc_cache.Ftl.LineSums.{blk_at, AllCounted, line_sum_change, line_sum_le, line_sum_add}
use nvmevirt_slc_cache.Ftl.Recount.{recount}
use nvmevirt_slc_cache.Ftl.Relines.{
  Recounted, Kept, set_lm-Kept, set_lm-Relined, ssd-set_lm, get_line_area,
}
use nvmevirt_slc_cache.Ftl.MarkValid.{OnLine, line_valid_sum, line_invalid_sum}
use nvmevirt_slc_cache.Ftl.Queue.{KeepsCounts, invalidate_line-Recounted}

-- A block with a valid page counts it, and so does its line.
block_holds :
    (s : ConvFtl) (p : Ppa)
    → AllCounted s
    → OnLine s p
    → status_of s.ssd p ≡ pg_valid
    → 0 < (get_blk s.ssd p).vpc
block_holds s p all o h = omega (
  arith,
  (all.blocks p o.blocks_in).valid_pages,
  pages_with-pos is_valid _ p s.ssd pg_invalid o.pg_in (rw h) refl,
)

line_holds :
    (s : ConvFtl) (p : Ppa)
    → AllCounted s
    → OnLine s p
    → status_of s.ssd p ≡ pg_valid
    → 0 < (line_at s (get_line s p)).vpc
line_holds s p all o h = omega (
  arith,
  line_valid_sum s p all o.blocks_in,
  m.valid_here,
  block_holds s p all o h,
  line_sum_change (λ x. x.vpc) s.ssd.sp s.ssd (mark pg_invalid 0 v p s.ssd) p o.blocks_in
      m.valid_elsewhere,
)
  where
    v : ℕ
    v = (get_blk s.ssd p).vpc - 1

    m : Marked s.ssd p pg_invalid 0 v (mark pg_invalid 0 v p s.ssd)
    m = mark-Marked pg_invalid 0 v p s.ssd

-- The counts of a line stay within its pages.
line_bounded :
    (s : ConvFtl) (p : Ppa)
    → AllCounted s
    → OnLine s p
    → (line_at s (get_line s p)).vpc + (line_at s (get_line s p)).ipc
      ≤ pgs_per_line_of s.ssd.sp (page_area s p)
line_bounded s p all o = omega (
  arith,
  o.whole_blocks,
  line_valid_sum s p all o.blocks_in,
  line_invalid_sum s p all o.blocks_in,
  line_sum_add (λ x. x.vpc) (λ x. x.ipc) s.ssd.sp s.ssd p.blk,
  line_sum_le (λ x. x.vpc + x.ipc) s.ssd.sp s.ssd p.blk n
      (λ ch lun lc ll. IsCounted-bounded n _ (
        all.blocks (blk_at ch lun p.blk)
          (record { ch_in = lc; lun_in = ll; pl_zero = refl; blk_in = o.blocks_in.blk_in }))),
)
  where
    n : ℕ
    n = pgs_per_blk_of s.ssd.sp (page_area s p)

-- The counts are right, the page is invalid in them, and the rest of the instance is as before.
abbrev pub Dropped : ConvFtl → Ppa → Unit {0} × ConvFtl → Type 0
Dropped s p r =
    AllCounted r.1
    × Marked s.ssd p pg_invalid ((get_blk s.ssd p).ipc + 1) ((get_blk s.ssd p).vpc - 1) r.1.ssd
    × Kept s r.1

-- The line's part, on the manager of the area that both `get_line` and `page_area` name.
line_part :
    (pq : Pqueue) (s : ConvFtl) (p : Ppa) (e : Ssd)
    → KeepsCounts pq
    → AllCounted s
    → OnLine s p
    → status_of s.ssd p ≡ pg_valid
    → Accounted
        (pgs_per_blk_of s.ssd.sp (page_area s p))
        pg_invalid
        ((get_blk s.ssd p).ipc + 1)
        ((get_blk s.ssd p).vpc - 1)
        p
        s.ssd
        (tt, e)
    → (a : LineMode) → (get_line s p).area ≡ a
    → Returns
        (Dropped s p)
        (elim (invalidate_line pq
          (pgs_per_line_of s.ssd.sp (page_area s p))
          (get_line s p).idx
          (lm_of s a)) [ none ↦ none | some m ↦ some (tt, set_lm (record s { ssd = e }) a m) ])
line_part pq s p e laws all o h (c, m) a h' =
    subst (λ (x : LineMode). Returns (Dropped s p) (part x)) h' own
  where
    r : LineRef
    r = get_line s p

    l : Line
    l = line_at s r

    part : LineMode → Option (Unit {0} × ConvFtl)
    part x =
        elim (invalidate_line pq (pgs_per_line_of s.ssd.sp (page_area s p)) r.idx (lm_of s x)) [
          | none ↦ none
          | some n ↦ some (tt, set_lm (record s { ssd = e }) x n)
        ]

    written :
        (n : LineMgmt)
        → Recounted (lm_of s r.area) r.idx (l.ipc + 1) (l.vpc - 1) n
        → Dropped s p (tt, set_lm (record s { ssd = e }) r.area n)
    written n k =
        let same : (set_lm (record s { ssd = e }) r.area n).ssd ≡ e = ssd-set_lm s e r.area n in
        let marked : Marked s.ssd p pg_invalid ((get_blk s.ssd p).ipc + 1)
            ((get_blk s.ssd p).vpc - 1) (set_lm (record s { ssd = e }) r.area n).ssd =
          subst (Marked s.ssd p pg_invalid ((get_blk s.ssd p).ipc + 1) ((get_blk s.ssd p).vpc - 1))
            (sym same) m in
        (
          recount s (set_lm (record s { ssd = e }) r.area n) p all o.blocks_in marked
              (set_lm-Relined s e p n (l.ipc + 1) (l.vpc - 1) k)
              (subst
                (λ (x : Ssd). IsCounted (pgs_per_blk_of s.ssd.sp (page_area s p)) (get_blk x p))
                (sym same) c)
              (omega arith) (omega (arith, line_holds s p all o h, block_holds s p all o h)),
          marked,
          set_lm-Kept s e r.area n k.tt_lines m.params,
        )

    own : Returns (Dropped s p) (part r.area)
    own =
        Returns-then (Recounted (lm_of s r.area) r.idx (l.ipc + 1) (l.vpc - 1)) (Dropped s p) _ _
          (invalidate_line-Recounted pq laws (pgs_per_line_of s.ssd.sp (page_area s p)) r.idx
            (lm_of s r.area) (line_holds s p all o h) (line_bounded s p all o))
          written

-- With a queue whose operations keep counts, a valid page on a line of an instance whose counts
-- are right is made invalid: no assertion fails, whether its line is full, waits in the queue or
-- is the open one, and all counts of blocks and lines are right again.
pub mark_page_invalid-AllCounted :
    (pq : Pqueue) (s : ConvFtl) (p : Ppa)
    → KeepsCounts pq
    → AllCounted s
    → OnLine s p
    → status_of s.ssd p ≡ pg_valid
    → Returns (Dropped s p) (mark_page_invalid pq p s)
unfolding mark_page_invalid
mark_page_invalid-AllCounted pq s p laws all o h =
    Returns-if (Dropped s p) _ _ _
      (λ _.
        Returns-elim _ (Dropped s p) _ _
          (invalidate_in_block-IsCounted _ p s.ssd o.pg_in (all.blocks p o.blocks_in) h)
          (λ u e am.
            line_part pq s p e laws all o h am (page_area s p) (get_line_area s p o.slc_lines)))
      (λ f. absurd (true≢false (sym ((==_iff _ _).1 (sym o.slc_lines)) ∙ f)))
