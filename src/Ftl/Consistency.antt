-- ===== src/Ftl/Consistency.antt =====
-- What makes the two mapping tables and the pages of the flash fit together.
use nvmevirt_slc_cache.Common.{ℕ, ◌*◌, ◌<◌, ◌≡◌, inl, inr, arith, true, ltb-cases}
use nvmevirt_slc_cache.Ppa.{Ppa, mapped_ppa}
use nvmevirt_slc_cache.Nand.{pg_valid}
use nvmevirt_slc_cache.Ftl.State.{
  WritePointer, LineMode, slc_mode, tlc_mode, ConvFtl, pgs_per_blk_of, pgs_per_line_of,
}
use nvmevirt_slc_cache.Ftl.Mapping.{get_line, pgidx, valid_ppa, page_area}
use nvmevirt_slc_cache.Ftl.Index.{InArray}
use nvmevirt_slc_cache.Ftl.Addresses.{IsSlcFtl, SamePage, valid_ppa-InArray}
use nvmevirt_slc_cache.Ftl.Blocks.{status_of}
use nvmevirt_slc_cache.Ftl.LineSums.{InBlocks, AllCounted}
use nvmevirt_slc_cache.Ftl.MarkValid.{OnLine}

-- An instance with the cache whose dies have one plane, as all configurations set it.
pub record IsLaidOut (s : ConvFtl) : Type 0 where
  pub slc : IsSlcFtl s
  pub one_plane : s.ssd.sp.pls_per_lun ≡ 1

-- The place of a page in the reverse map.
abbrev pub rmap_of : ConvFtl → Ppa → ℕ
rmap_of s p = s.rmap (pgidx s.ssd.sp slc_mode p)

-- The page at an address holds the data of a logical page, and the reverse map names it.
pub record Owned (s : ConvFtl) (lpn : ℕ) (p : Ppa) : Type 0 where
  pub valid_address : valid_ppa s p ≡ true
  pub valid_page : status_of s.ssd p ≡ pg_valid
  pub owner : rmap_of s p ≡ lpn

-- The logical page that the reverse map names for a physical page has that page as its address.
pub record Mapped (s : ConvFtl) (q : Ppa) : Type 0 where
  pub lpn_in : rmap_of s q < s.ssd.sp.tt_pgs
  pub is_mapped : mapped_ppa (s.maptbl (rmap_of s q)) ≡ true
  pub same_page : SamePage (s.maptbl (rmap_of s q)) q

-- All logical pages that `But` allows have their data, and every valid page belongs to one of them.
pub record IsConsistent (But : ℕ → Type 0) (s : ConvFtl) : Type 0 where
  pub counts : AllCounted s
  pub owned :
      (lpn : ℕ)
      → But lpn
      → lpn < s.ssd.sp.tt_pgs
      → mapped_ppa (s.maptbl lpn) ≡ true
      → Owned s lpn (s.maptbl lpn)
  pub mapped :
      (q : Ppa)
      → valid_ppa s q ≡ true
      → status_of s.ssd q ≡ pg_valid
      → But (rmap_of s q) × Mapped s q

-- No logical page is left out.
abbrev pub All : ℕ → Type 0
All _ = Unit {0}

pub valid_ppa-InBlocks :
    (s : ConvFtl) (p : Ppa) → IsLaidOut s → valid_ppa s p ≡ true → InBlocks s.ssd.sp p
valid_ppa-InBlocks s p g h =
    let v = valid_ppa-InArray s p g.slc h in
    record {
      ch_in = v.ch_in;
      lun_in = v.lun_in;
      pl_zero = omega (arith, v.pl_in, g.one_plane);
      blk_in = v.blk_in;
    }

pub valid_ppa-OnLine : (s : ConvFtl) (p : Ppa) → IsLaidOut s → valid_ppa s p ≡ true → OnLine s p
valid_ppa-OnLine s p g h = record {
  blocks_in = valid_ppa-InBlocks s p g h;
  pg_in = page_in;
  slc_lines = g.slc.lines;
  whole_blocks = whole (page_area s p);
}
  where
    v : InArray s.ssd.sp p
    v = valid_ppa-InArray s p g.slc h

    page_in : p.pg < pgs_per_blk_of s.ssd.sp (page_area s p)
    page_in = elim (ltb-cases p.blk s.ssd.sp.tt_lines_slc) [
      | inl (a, e) ↦ rw (g.slc.mode, e) (v.pg_in_slc a)
      | inr (a, e) ↦ rw (g.slc.mode, e) (v.pg_in_tlc a)
    ]

    regroup : (a b c n : ℕ) → n ≡ a * b * c → n ≡ b * (a * c)
    regroup a b c n e = grind arith

    whole :
        (x : LineMode)
        → pgs_per_line_of s.ssd.sp x
          ≡ s.ssd.sp.nchs * (s.ssd.sp.luns_per_ch * pgs_per_blk_of s.ssd.sp x)
    whole slc_mode = regroup _ _ _ _ g.slc.geometry.line_slc
    whole tlc_mode = regroup _ _ _ _ g.slc.geometry.line

-- The write pointer is no part of it.
pub IsConsistent-pointer :
    (But : ℕ → Type 0) (s : ConvFtl) (w : WritePointer)
    → IsConsistent But s
    → IsConsistent But (record s { wp = w })
unfolding get_line valid_ppa
IsConsistent-pointer But s w c = record {
  counts = record {
    blocks = c.counts.blocks;
    lines = λ b l.
        let k = c.counts.lines b l in
        record { line_valid = k.line_valid; line_invalid = k.line_invalid };
  };
  owned = λ l b i h.
      let o = c.owned l b i h in
      record { valid_address = o.valid_address; valid_page = o.valid_page; owner = o.owner };
  mapped = λ q v h.
      let m = c.mapped q v h in
      (m.0, record { lpn_in = m.1.lpn_in; is_mapped = m.1.is_mapped; same_page = m.1.same_page });
}
