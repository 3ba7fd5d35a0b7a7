-- ===== src/Ftl/Progress.antt =====
-- `advance_write_pointer`: the next page of the line, or a used-up line filed and a free one taken.
use nvmevirt_slc_cache.Common.{
  ℕ, ◌+◌, ◌*◌, ◌%◌, ◌≤◌, ◌<◌, ◌≡◌, ◌⊎◌, inl, inr, List, ◌∷◌, refl, sym, ap, ◌∙◌, arith, Bool, true,
  false, lt→ltb, subst, ==_iff, Returns, Returns-then, Option, none, some,
}
use nvmevirt_slc_cache.Params.{SsdParams}
use nvmevirt_slc_cache.Ftl.State.{
  LineMode, slc_mode, tlc_mode, IoType, user_io, gc_io, ConvFtl, LineMgmt, LineRef, Pqueue,
  WritePointer, lm_of, set_lm, set_wp, get_wp, pgs_per_blk_of, pgs_per_line_of,
  pgs_per_oneshotpg_of,
}
use nvmevirt_slc_cache.Ftl.Advance.{
  io_mode, write_area, next_page, retire_line, take_line, advance_write_pointer,
}
use nvmevirt_slc_cache.Ftl.Queue.{KeepsCounts}
use nvmevirt_slc_cache.Ftl.Sweep.{place, InLine, Stepped, next_page-Stepped}
use nvmevirt_slc_cache.Ftl.Prepare.{rest_of}
use nvmevirt_slc_cache.Ftl.Consistency.{IsLaidOut, IsConsistent, All}
use nvmevirt_slc_cache.Ftl.Managers.{SameCounts-refl}
use nvmevirt_slc_cache.Ftl.Onward.{
  InArea, OnArea, HasFree, Onward, moved, moved-Onward, Filed, retire_line-Filed, onto,
  take_line-first,
}

-- `advance_write_pointer` after `next_page`, in an area.
abbrev rest_of_advance :
    Pqueue
    → IoType
    → ConvFtl
    → LineMode
    → Option (WritePointer × Bool)
    → Option (Unit {0} × ConvFtl)
rest_of_advance pq io s area o = elim o [
  | none ↦ none
  | some (w', false) ↦ some (tt, set_wp s io w')
  | some (w', true) ↦
      elim (retire_line pq (pgs_per_line_of s.ssd.sp area) w'.curline.idx (lm_of s area)) [
        | none ↦ none
        | some m ↦ take_line io w' (set_lm s area m)
      ]
]

abbrev next_in : ConvFtl → IoType → LineMode → Option (WritePointer × Bool)
next_in s io area =
    next_page (pgs_per_blk_of s.ssd.sp area) (pgs_per_oneshotpg_of s.ssd.sp area) s.ssd.sp.nchs
      s.ssd.sp.luns_per_ch (get_wp s io)

advance-area :
    (pq : Pqueue) (io : IoType) (s : ConvFtl)
    → s.slc_mode ≡ slc_mode
    → advance_write_pointer pq io s
      ≡ rest_of_advance pq io s (io_mode io) (next_in s io (io_mode io))
unfolding advance_write_pointer
advance-area pq io s h =
    ap (λ (a : LineMode). rest_of_advance pq io s a (next_in s io a))
      (ap (λ (x : LineMode). write_area x io) h ∙ area io)
  where
    area : (x : IoType) → write_area slc_mode x ≡ io_mode x
    area user_io = refl
    area gc_io = refl

page_of_area :
    (spp : SsdParams) (a : LineMode) (w : WritePointer)
    → OnArea spp a w
    → w.pg < pgs_per_blk_of spp a
page_of_area spp slc_mode w o = o.page.pg_in_slc o.blk_of_area
page_of_area spp tlc_mode w o = o.page.pg_in_tlc o.blk_of_area

-- A pointer on a line of the area, with the array as big as that of another pointer.
place-OnArea :
    (spp : SsdParams) (a : LineMode) (w v : WritePointer)
    → OnArea spp a w
    → InLine (pgs_per_blk_of spp a) (pgs_per_oneshotpg_of spp a) spp.nchs spp.luns_per_ch v
    → v.pl ≡ 0
    → v.blk < spp.blks_per_pl
    → InArea spp a v.blk
    → OnArea spp a v
place-OnArea spp a w v o l p b i = record {
  page = record {
    ch_in = l.ch_in;
    lun_in = l.lun_in;
    pl_zero = p;
    planes = o.page.planes;
    blk_in = b;
    pg_in_slc = in_slc a i l.pg_in;
    pg_in_tlc = in_tlc a i l.pg_in;
    few_channels = o.page.few_channels;
    few_dies = o.page.few_dies;
    few_blocks = o.page.few_blocks;
    few_pages = o.page.few_pages;
    few_pages_slc = o.page.few_pages_slc;
  };
  blk_of_area = i;
}
  where
    in_slc :
        (x : LineMode)
        → InArea spp x v.blk
        → v.pg < pgs_per_blk_of spp x
        → v.blk < spp.tt_lines_slc
        → v.pg < spp.pgs_per_blk_slc
    in_slc slc_mode j k h = k
    in_slc tlc_mode j k h = absurd (omega arith)

    in_tlc :
        (x : LineMode)
        → InArea spp x v.blk
        → v.pg < pgs_per_blk_of spp x
        → spp.tt_lines_slc ≤ v.blk
        → v.pg < spp.pgs_per_blk
    in_tlc slc_mode j k h = absurd (omega arith)
    in_tlc tlc_mode j k h = k

-- The pointer stands on the last page of its line.
abbrev pub AtLast : ConvFtl → IoType → Type 0
AtLast s io =
    let a = io_mode io in
    let spp = s.ssd.sp in
    place (pgs_per_blk_of spp a) (pgs_per_oneshotpg_of spp a) spp.nchs spp.luns_per_ch (get_wp s io)
      + 1
    ≡ spp.luns_per_ch * spp.nchs * pgs_per_blk_of spp a

-- The place of the pointer of `io` in its line.
abbrev pub place_of : ConvFtl → IoType → ℕ
place_of s io =
    let a = io_mode io in
    let spp = s.ssd.sp in
    place (pgs_per_blk_of spp a) (pgs_per_oneshotpg_of spp a) spp.nchs spp.luns_per_ch (get_wp s io)

-- The pointer is one page further in the same line, and the lines are as before.
pub record NextPage (s : ConvFtl) (io : IoType) (t : ConvFtl) : Type 0 where
  pub further : place_of t io ≡ place_of s io + 1
  pub line_same : (get_wp t io).curline ≡ (get_wp s io).curline
  pub block_same : (get_wp t io).blk ≡ (get_wp s io).blk
  pub manager_same : lm_of t (io_mode io) ≡ lm_of s (io_mode io)

-- The line is used up, and the pointer is at the start of the line that was free the longest, which has
-- left the free ones.
pub record NextLine (s : ConvFtl) (io : IoType) (t : ConvFtl) : Type 0 where
  pub at_last : AtLast s io
  pub idx : ℕ
  pub rest : List ℕ
  pub first_free : (lm_of s (io_mode io)).free_line_list ≡ idx ∷ rest
  pub left_free : (lm_of t (io_mode io)).free_line_list ≡ rest
  pub at_start : place_of t io ≡ 0
  pub line_taken : (get_wp t io).curline ≡ record { area = io_mode io; idx = idx }
  pub block_taken : (get_wp t io).blk ≡ ((lm_of s (io_mode io)).lines idx).id

pub record Went (s : ConvFtl) (io : IoType) (t : ConvFtl) : Type 0 where
  pub onward : Onward s io t
  pub went : NextPage s io t ⊎ NextLine s io t

-- At the end of a line, its pages are written and another line of the area is free.
pub record CanLeave (s : ConvFtl) (io : IoType) : Type 0 where
  pub all_written :
      ((lm_of s (io_mode io)).lines (get_wp s io).curline.idx).vpc
        + ((lm_of s (io_mode io)).lines (get_wp s io).curline.idx).ipc
      ≡ pgs_per_line_of s.ssd.sp (io_mode io)
  pub has_free : HasFree s (io_mode io)

whole_wordlines :
    (s : ConvFtl) (a : LineMode)
    → IsLaidOut s
    → pgs_per_blk_of s.ssd.sp a % pgs_per_oneshotpg_of s.ssd.sp a ≡ 0
whole_wordlines s slc_mode g = let e = g.slc.geometry.block_slc in grind arith
whole_wordlines s tlc_mode g = let e = g.slc.geometry.block in grind arith

within-eq :
    (s : ConvFtl) (io : IoType) (w : WritePointer)
    → set_wp s io w ≡ moved s io (lm_of s (io_mode io)) s.dyn_slc_mode w
within-eq s user_io w = refl
within-eq s gc_io w = refl

wp_of_moved :
    (s : ConvFtl) (io : IoType) (m : LineMgmt) (dyn : LineMode) (w : WritePointer)
    → get_wp (moved s io m dyn w) io ≡ w
wp_of_moved s user_io m dyn w = refl
wp_of_moved s gc_io m dyn w = refl

lm_of_moved :
    (s : ConvFtl) (io : IoType) (m : LineMgmt) (dyn : LineMode) (w : WritePointer)
    → lm_of (moved s io m dyn w) (io_mode io) ≡ m
lm_of_moved s user_io m dyn w = refl
lm_of_moved s gc_io m dyn w = refl

place_of_moved :
    (s : ConvFtl) (io : IoType) (m : LineMgmt) (dyn : LineMode) (w : WritePointer)
    → place_of (moved s io m dyn w) io
      ≡ place
          (pgs_per_blk_of s.ssd.sp (io_mode io))
          (pgs_per_oneshotpg_of s.ssd.sp (io_mode io))
          s.ssd.sp.nchs
          s.ssd.sp.luns_per_ch
          w
place_of_moved s user_io m dyn w = refl
place_of_moved s gc_io m dyn w = refl

module _ (pq : Pqueue) (s : ConvFtl) (io : IoType) where
  abbrev area : LineMode
  area = io_mode io

  abbrev spp : SsdParams
  spp = s.ssd.sp

  abbrev InPlace : WritePointer → Type 0
  InPlace =
      InLine (pgs_per_blk_of spp area) (pgs_per_oneshotpg_of spp area) spp.nchs spp.luns_per_ch

  -- A used-up line is filed and the first free one taken.
  take-Went :
      (w : WritePointer) (m : LineMgmt) (l : HasFree s area)
      → IsLaidOut s
      → IsConsistent All s
      → OnArea spp area (get_wp s io)
      → InPlace w
      → w.blk < spp.blks_per_pl
      → w.pl ≡ 0
      → Filed (lm_of s area) m
      → AtLast s io
      → place (pgs_per_blk_of spp area) (pgs_per_oneshotpg_of spp area) spp.nchs spp.luns_per_ch w
        ≡ 0
      → Returns (λ r. Went s io r.1) (take_line io w (set_lm s area m))
  take-Went w m l g c o v b p f last start =
      let same = f.id l.first in
      let id_in : (m.lines l.first).id < spp.blks_per_pl =
        subst (λ (x : ℕ). x < spp.blks_per_pl) (sym same) l.id_in in
      subst (Returns (λ r. Went s io r.1))
        (sym (
          take_line-first s io m w l.first l.others g.slc.mode (f.free ∙ l.listed) (lt→ltb _ _ b)
            (lt→ltb _ _ id_in) ((==_iff _ _).1 p)))
        (record {
          onward =
              moved-Onward s io (rest_of m l.others) area (onto area m l.first w) c
                (record { tt_lines = f.counts.tt_lines; ipc = f.counts.ipc; vpc = f.counts.vpc })
                (place-OnArea spp area (get_wp s io) (onto area m l.first w) o
                  (record { pg_in = v.pg_in; ch_in = v.ch_in; lun_in = v.lun_in }) p id_in
                  (subst (InArea spp area) (sym same) l.id_of_area));
          went = inr (record {
            at_last = last;
            idx = l.first;
            rest = l.others;
            first_free = l.listed;
            left_free =
                ap (λ (x : LineMgmt). x.free_line_list)
                  (lm_of_moved s io (rest_of m l.others) area (onto area m l.first w));
            at_start =
                place_of_moved s io (rest_of m l.others) area (onto area m l.first w) ∙ start;
            line_taken =
                ap (λ (x : WritePointer). x.curline)
                  (wp_of_moved s io (rest_of m l.others) area (onto area m l.first w));
            block_taken =
                ap (λ (x : WritePointer). x.blk)
                  (wp_of_moved s io (rest_of m l.others) area (onto area m l.first w))
                ∙ same;
          });
        })

  -- In a consistent instance with the cache, with a queue whose operations keep counts and with
  -- wordlines of at least one page, the write pointer of the host or of the collection, on a page
  -- of its area, moves on without a failed assertion: to the next place of its line, with the
  -- lines as they were, or, only from the last place, to the first page of the line of its area
  -- that was free the longest, which leaves the free ones. It ends on a page of a block of its
  -- area; the flash, the logical pages and the consistency stay. On the last page of a line this
  -- takes that the line's pages are all written and that another line of the area is free, whose
  -- id is a block of the area.
  pub advance_write_pointer-Went :
      KeepsCounts pq
      → IsLaidOut s
      → IsConsistent All s
      → OnArea s.ssd.sp (io_mode io) (get_wp s io)
      → 0 < pgs_per_oneshotpg_of s.ssd.sp (io_mode io)
      → (AtLast s io → CanLeave s io)
      → Returns (λ r. Went s io r.1) (advance_write_pointer pq io s)
  advance_write_pointer-Went laws g c o shots leave =
      subst (Returns (λ r. Went s io r.1)) (sym (advance-area pq io s g.slc.mode)) (
        after (next_in s io area) (
          next_page-Stepped (pgs_per_blk_of spp area) (pgs_per_oneshotpg_of spp area) spp.nchs
            spp.luns_per_ch (get_wp s io) shots (whole_wordlines s area g)
            (record {
              pg_in = page_of_area spp area (get_wp s io) o;
              ch_in = o.page.ch_in;
              lun_in = o.page.lun_in;
            })))
    where
      after :
          (r : Option (WritePointer × Bool))
          → Returns
              (Stepped
                (pgs_per_blk_of spp area)
                (pgs_per_oneshotpg_of spp area)
                spp.nchs
                spp.luns_per_ch
                (get_wp s io))
              r
          → Returns (λ x. Went s io x.1) (rest_of_advance pq io s area r)
      after none h = h
      after (some (w, false)) h = subst (Went s io) (sym (within-eq s io w)) (record {
        onward =
            moved-Onward s io (lm_of s area) s.dyn_slc_mode w c (SameCounts-refl (lm_of s area)) (
              place-OnArea spp area (get_wp s io) w o h.in_line (h.same_line.2 ∙ o.page.pl_zero)
                (subst (λ (x : ℕ). x < spp.blks_per_pl) (sym h.same_line.1) o.page.blk_in)
                (subst (InArea spp area) (sym h.same_line.1) o.blk_of_area));
        went = inl (record {
          further = place_of_moved s io (lm_of s area) s.dyn_slc_mode w ∙ h.further refl;
          line_same =
              ap (λ (x : WritePointer). x.curline)
                (wp_of_moved s io (lm_of s area) s.dyn_slc_mode w)
              ∙ h.same_line.0;
          block_same =
              ap (λ (x : WritePointer). x.blk) (wp_of_moved s io (lm_of s area) s.dyn_slc_mode w)
              ∙ h.same_line.1;
          manager_same = lm_of_moved s io (lm_of s area) s.dyn_slc_mode w;
        });
      })
      after (some (w, true)) h =
          let l = leave (h.at_end refl).0 in
          Returns-then (Filed (lm_of s area)) (λ x. Went s io x.1)
            (retire_line pq (pgs_per_line_of spp area) w.curline.idx (lm_of s area))
            (λ m. take_line io w (set_lm s area m))
            (retire_line-Filed pq (pgs_per_line_of spp area) w.curline.idx (lm_of s area) laws (
              subst
                (λ (x : LineRef).
                  ((lm_of s area).lines x.idx).vpc + ((lm_of s area).lines x.idx).ipc
                  ≡ pgs_per_line_of spp area)
                (sym h.same_line.0) l.all_written))
            (λ m f.
              take-Went w m l.has_free g c o h.in_line
                (subst (λ (x : ℕ). x < spp.blks_per_pl) (sym h.same_line.1) o.page.blk_in)
                (h.same_line.2 ∙ o.page.pl_zero) f (h.at_end refl).0 (h.at_end refl).1)
