-- ===== src/Ftl/Policy.antt =====
-- When garbage is collected, and the write credits that pace it, in conv_ftl.c.
use nvmevirt_slc_cache.Common.{
  ℕ, zero, suc, ◌+◌, Bool, false, Option, none, some, leb, if◌then◌else◌, u16, u32, sub32,
}
use nvmevirt_slc_cache.Ppa.{Ppa}
use nvmevirt_slc_cache.Nand.{Ssd, NandCmd, NandCommand, get_pg, get_lun, set_lun, is_free, is_valid}
use nvmevirt_slc_cache.Ftl.State.{ConvFtl}

unfoldable pub should_gc : ConvFtl → Bool
should_gc s = leb s.lm.free_line_cnt s.cp.gc_thres_lines

unfoldable pub should_gc_high : ConvFtl → Bool
should_gc_high s = leb s.lm.free_line_cnt s.cp.gc_thres_lines_high

unfoldable pub should_migration : ConvFtl → Bool
should_migration s = leb s.slm.free_line_cnt s.cp.mig_thres_lines

unfoldable pub should_migration_high : ConvFtl → Bool
should_migration_high s = leb s.slm.free_line_cnt s.cp.mig_thres_lines_high

-- A flash command of the collector: it starts now, with no transfer over the PCIe link.
abbrev pub gc_cmd : NandCommand → ℕ → Ppa → NandCmd
gc_cmd cmd xfer_size p = record {
  cmd = cmd;
  xfer_size = xfer_size;
  stime = 0;
  interleave_pci_dma = false;
  ppa = p;
}

-- The address `i` pages after `p`; the field wraps.
abbrev pub page_after : Ppa → ℕ → Ppa
page_after p i = record p { pg = u16 (p.pg + i) }

-- The first loop of `clean_one_flashpg`: how many of the `n` pages from `i` on are valid. A free
-- page fails the assertion.
unfoldable pub count_valid : Ssd → Ppa → ℕ → ℕ → Option ℕ
count_valid d p zero i = some 0
count_valid d p (suc n) i =
    let status = (get_pg d (page_after p i)).status in
    let rest = count_valid d p n (i + 1) in
    if is_free status
    then none
    else elim rest [ none ↦ none | some c ↦ some (if is_valid status then c + 1 else c) ]

-- `lunp->gc_endtime = lunp->next_lun_avail_time`
unfoldable pub set_gc_endtime : Ppa → ConvFtl → ConvFtl
set_gc_endtime p s =
    let l = get_lun s.ssd p in
    record s { ssd = set_lun s.ssd p (record l { gc_endtime = l.next_lun_avail_time }) }

-- `write_credits` is a `uint32_t`.
unfoldable pub consume_write_credit : ConvFtl → ConvFtl
consume_write_credit s = record s {
  wfc = record (s.wfc) { write_credits = sub32 s.wfc.write_credits 1 };
}

unfoldable pub refill_credits : ConvFtl → ConvFtl
refill_credits s = record s {
  wfc = record (s.wfc) { write_credits = u32 (s.wfc.write_credits + s.wfc.credits_to_refill) };
}
