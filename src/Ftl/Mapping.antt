-- ===== src/Ftl/Mapping.antt =====
-- The mapping tables of conv_ftl.c and the arithmetic of physical addresses.
use nvmevirt_slc_cache.Common.{
  ℕ, ◌+◌, ◌-◌, ◌*◌, ◌%◌, Bool, true, ◌&&◌, Option, none, some, ltb, ◌==◌, if◌then◌else◌, update, u8,
  u16, St,
}
use nvmevirt_slc_cache.Params.{SsdParams}
use nvmevirt_slc_cache.Ppa.{Ppa}
use nvmevirt_slc_cache.Ftl.State.{
  LineMode, slc_mode, tlc_mode, IoType, is_slc, ConvFtl, LineRef, get_wp,
}

-- Whether an address lies in the SLC cache, as the page functions decide it.
abbrev pub page_area : ConvFtl → Ppa → LineMode
page_area s p = if is_slc s.slc_mode && ltb p.blk s.ssd.sp.tt_lines_slc then slc_mode else tlc_mode

unfoldable pub get_maptbl_ent : ConvFtl → ℕ → Ppa
get_maptbl_ent s lpn = s.maptbl lpn

unfoldable pub set_maptbl_ent : ℕ → Ppa → St ConvFtl (Unit {0})
set_maptbl_ent lpn p s =
    if ltb lpn s.ssd.sp.tt_pgs then some (tt, record s { maptbl = update s.maptbl lpn p }) else none

-- The index of a page, before the assertions: planes before it, then blocks, the SLC ones first.
unfoldable pub pgidx : SsdParams → LineMode → Ppa → ℕ
pgidx spp mode p =
    let plane = p.ch * spp.pgs_per_ch + p.lun * spp.pgs_per_lun + p.pl * spp.pgs_per_pl in
    if is_slc mode
    then (if ltb p.blk spp.tt_lines_slc
        then plane + p.blk * spp.pgs_per_blk_slc + p.pg
        else plane
          + (spp.tt_lines_slc * spp.pgs_per_blk_slc + (p.blk - spp.tt_lines_slc) * spp.pgs_per_blk)
          + p.pg)
    else plane + p.blk * spp.pgs_per_blk + p.pg

unfoldable pub ppa2pgidx : ConvFtl → Ppa → Option ℕ
unfolding pgidx
ppa2pgidx s p =
    let spp = s.ssd.sp in
    let i = pgidx spp s.slc_mode p in
    let slc_page_in =
      if is_slc s.slc_mode && ltb p.blk spp.tt_lines_slc
      then ltb p.pg spp.pgs_per_blk_slc
      else true in
    if slc_page_in && ltb i spp.tt_pgs then some i else none

unfoldable pub get_rmap_ent : Ppa → St ConvFtl ℕ
unfolding ppa2pgidx
get_rmap_ent p s = elim (ppa2pgidx s p) [ none ↦ none | some i ↦ some (s.rmap i, s) ]

unfoldable pub set_rmap_ent : ℕ → Ppa → St ConvFtl (Unit {0})
unfolding ppa2pgidx
set_rmap_ent lpn p s = elim (ppa2pgidx s p) [
  | none ↦ none
  | some i ↦ some (tt, record s { rmap = update s.rmap i lpn })
]

unfoldable pub valid_ppa : ConvFtl → Ppa → Bool
valid_ppa s p =
    let spp = s.ssd.sp in
    ltb p.ch spp.nchs
    && (ltb p.lun spp.luns_per_ch
        && (ltb p.pl spp.pls_per_lun
            && (ltb p.blk spp.blks_per_pl
                && (if is_slc s.slc_mode && ltb p.blk s.slm.tt_lines
                    then ltb p.pg spp.pgs_per_blk_slc
                    else ltb p.pg spp.pgs_per_blk))))

unfoldable pub valid_lpn : ConvFtl → ℕ → Bool
valid_lpn s lpn = ltb lpn s.ssd.sp.tt_pgs

-- `get_line`
unfoldable pub get_line : ConvFtl → Ppa → LineRef
get_line s p =
    if is_slc s.slc_mode
    then (if ltb p.blk s.slm.tt_lines
        then record { area = slc_mode; idx = p.blk }
        else record { area = tlc_mode; idx = p.blk - s.slm.tt_lines })
    else record { area = tlc_mode; idx = p.blk }

-- `get_new_page`: the address at the write pointer, each member cut to its bit field.
unfoldable pub get_new_page : IoType → St ConvFtl Ppa
get_new_page io s =
    let w = get_wp s io in
    let p : Ppa = record {
      pg = u16 w.pg;
      blk = u16 w.blk;
      pl = u8 w.pl;
      lun = u8 w.lun;
      ch = u8 w.ch;
      rsv = 0;
    } in
    if p.pl == 0 then some (p, s) else none

unfoldable pub last_pg_in_wordline : SsdParams → Ppa → Bool
last_pg_in_wordline spp p = p.pg % spp.pgs_per_oneshotpg == spp.pgs_per_oneshotpg - 1

unfoldable pub last_pg_in_wordline_slc : SsdParams → Ppa → Bool
last_pg_in_wordline_slc spp p = p.pg % spp.pgs_per_oneshotpg_slc == spp.pgs_per_oneshotpg_slc - 1
