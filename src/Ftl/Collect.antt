-- ===== src/Ftl/Collect.antt =====
-- Garbage collection and migration from the SLC cache to the TLC area: conv_ftl.c from `should_gc` to
-- `foreground_gc`, and the write credits.
use nvmevirt_slc_cache.Common.{
  ℕ, zero, suc, ◌+◌, ◌-◌, ◌*◌, Bool, true, false, not, ◌&&◌, Option, none, some, ltb, ◌==◌,
  if◌then◌else◌, u8, u16, u32, u64, St, ◌>>=◌, ◌>>◌, return, get, modify, assert, when, for_range,
}
use nvmevirt_slc_cache.Ppa.{Ppa}
use nvmevirt_slc_cache.Nand.{
  Machine, NandCmd, nand_read, nand_write, nand_erase, nand_nop, ssd_advance_nand, get_pg, get_blk,
  is_free, is_valid,
}
use nvmevirt_slc_cache.Ftl.State.{
  slc_mode, tlc_mode, gc_io, is_slc, LineRef, ConvFtl, Pqueue, line_at, on_ssd,
}
use nvmevirt_slc_cache.Ftl.Mapping.{
  get_rmap_ent, set_rmap_ent, set_maptbl_ent, valid_lpn, get_new_page, last_pg_in_wordline,
}
use nvmevirt_slc_cache.Ftl.Lines.{mark_line_free}
use nvmevirt_slc_cache.Ftl.Pages.{mark_page_valid, mark_block_free}
use nvmevirt_slc_cache.Ftl.Advance.{advance_write_pointer}
use nvmevirt_slc_cache.Ftl.Victim.{select_victim_line, select_victim_line_slc}
use nvmevirt_slc_cache.Ftl.Policy.{
  should_gc_high, should_migration_high, gc_cmd, page_after, count_valid, set_gc_endtime,
  refill_credits,
}

module _ (m : Machine) (pq : Pqueue) where
  -- A command that is issued only where the parameters ask for its delay.
  unfoldable pub delayed : NandCmd → St ConvFtl (Unit {0})
  delayed c s = when s.cp.enable_gc_delay (on_ssd (ssd_advance_nand m c) >>= λ _. return tt) s

  unfoldable pub gc_read_page : Ppa → St ConvFtl (Unit {0})
  unfolding delayed
  gc_read_page p s = delayed (gc_cmd nand_read s.ssd.sp.pgsz p) s

  -- The tables' part of `gc_write_page`: the new address of the page, and its logical page.
  unfoldable pub move_page : Ppa → St ConvFtl Ppa
  unfolding get_rmap_ent set_rmap_ent set_maptbl_ent valid_lpn get_new_page mark_page_valid
  move_page old = do
    lpn ← get_rmap_ent old
    s ← get
    assert (valid_lpn s lpn)
    new ← get_new_page gc_io
    set_maptbl_ent lpn new
    set_rmap_ent lpn new
    mark_page_valid new
    return new

  unfoldable pub gc_write_page : Ppa → St ConvFtl (Unit {0})
  unfolding move_page delayed advance_write_pointer last_pg_in_wordline
  gc_write_page old = do
    new ← move_page old
    modify (λ s. record s { copy_cnt = u64 (s.copy_cnt + 1) })
    advance_write_pointer pq gc_io
    s ← get
    let spp = s.ssd.sp
    delayed (
        if last_pg_in_wordline spp new
        then gc_cmd nand_write (spp.pgsz * spp.pgs_per_oneshotpg) new
        else gc_cmd nand_nop 0 new)

  -- `clean_one_block`, which nothing calls any more; the result is the count of pages moved.
  unfoldable pub clean_pages : Ppa → ℕ → ℕ → ℕ → St ConvFtl ℕ
  unfolding gc_read_page gc_write_page
  clean_pages p zero pg cnt s = some (cnt, s)
  clean_pages p (suc n) pg cnt s =
      let here = record p { pg = u16 pg } in
      let status = (get_pg s.ssd here).status in
      let move : St ConvFtl (Unit {0}) = gc_read_page here >> gc_write_page here in
      let moved : St ConvFtl ℕ = move >>= λ _. clean_pages p n (pg + 1) (cnt + 1) in
      let kept : St ConvFtl ℕ = clean_pages p n (pg + 1) cnt in
      if is_free status then none else if is_valid status then moved s else kept s

  unfoldable pub clean_one_block : Ppa → St ConvFtl (Unit {0})
  unfolding clean_pages
  clean_one_block p s =
      let n = s.ssd.sp.pgs_per_blk in
      let run : St ConvFtl (Unit {0}) = do
        cnt ← clean_pages p n 0 0
        t ← get
        assert ((get_blk t.ssd (record p { pg = u16 (n - 1) })).vpc == cnt)
      in run s

  -- The body of the second loop.
  unfoldable pub move_if_valid : Ppa → ℕ → St ConvFtl (Unit {0})
  unfolding gc_write_page
  move_if_valid p i s =
      if is_valid (get_pg s.ssd (page_after p i)).status
      then gc_write_page (page_after p i) s
      else some (tt, s)

  unfoldable pub clean_one_flashpg : Ppa → St ConvFtl (Unit {0})
  unfolding count_valid move_if_valid delayed for_range
  clean_one_flashpg p s =
      let spp = s.ssd.sp in
      let n = spp.pgs_per_flashpg in
      let migrating = is_slc s.slc_mode && is_slc s.dyn_slc_mode in
      if migrating && not (ltb p.blk spp.tt_lines_slc)
      then none
      else elim (count_valid s.ssd p n 0) [
        | none ↦ none
        | some cnt ↦
            if cnt == 0
            then some (tt, s)
            else (delayed (gc_cmd nand_read (spp.pgsz * cnt) p) >> for_range n 0 (move_if_valid p))
                s
      ]

  -- The body of the three loops of `do_gc`.
  unfoldable pub collect_flashpg : ℕ → ℕ → ℕ → ℕ → ℕ → St ConvFtl (Unit {0})
  unfolding clean_one_flashpg mark_block_free delayed set_gc_endtime
  collect_flashpg blk flashpgs flashpg ch lun s =
      let p : Ppa = record {
        pg = u16 (flashpg * s.ssd.sp.pgs_per_flashpg);
        blk = blk;
        pl = 0;
        lun = u8 lun;
        ch = u8 ch;
        rsv = 0;
      } in
      let erase : St ConvFtl (Unit {0}) = do
        mark_block_free p
        delayed (gc_cmd nand_erase 0 p)
        modify (set_gc_endtime p)
      in (clean_one_flashpg p >> when (flashpg + 1 == flashpgs) erase) s

  unfoldable pub collect_line : ℕ → ℕ → St ConvFtl (Unit {0})
  unfolding collect_flashpg for_range mark_line_free
  collect_line blk flashpgs s =
      let spp = s.ssd.sp in
      let copy = for_range flashpgs 0 λ flashpg.
        for_range spp.nchs 0
          λ ch. for_range spp.luns_per_ch 0 λ lun. collect_flashpg blk flashpgs flashpg ch lun in
      let p : Ppa = record { pg = 0; blk = blk; pl = 0; lun = 0; ch = 0; rsv = 0 } in
      (copy >> modify (mark_line_free p)) s

  -- The choice at the start of `do_gc`: by mode, with the collections of the TLC area counted.
  unfoldable pub choose_victim : Bool → ConvFtl → Option LineRef × ConvFtl
  unfolding select_victim_line select_victim_line_slc
  choose_victim force s =
      let (r, t) = select_victim_line m pq force s in
      if is_slc s.dyn_slc_mode
      then select_victim_line_slc m pq force s
      else (r, record t { gc_cnt = u64 (t.gc_cnt + 1) })

  -- `do_gc`: false is the result -1, that there was no victim.
  unfoldable pub do_gc : Bool → St ConvFtl Bool
  unfolding choose_victim collect_line
  do_gc force s =
      let spp = s.ssd.sp in
      let migrating = is_slc s.dyn_slc_mode in
      let flashpgs = if migrating then spp.flashpgs_per_blk_slc else spp.flashpgs_per_blk in
      let (victim, t) = choose_victim force s in
      elim victim [
        | none ↦ some (false, t)
        | some r ↦
            let l = line_at t r in
            let credits = if migrating then spp.pgs_per_line_slc else l.ipc in
            let u = record t { wfc = record (t.wfc) { credits_to_refill = u32 credits } } in
            (collect_line (u16 l.id) flashpgs >>= λ _. return true) u
      ]

  -- `foreground_gc`: when the SLC cache runs low, first the TLC area is collected, if it is low too,
  -- and then a line of the cache is moved.
  unfoldable pub foreground_gc : St ConvFtl (Unit {0})
  unfolding should_migration_high should_gc_high do_gc
  foreground_gc s =
      let collect : St ConvFtl (Unit {0}) = do
        modify (λ t. record t { dyn_slc_mode = tlc_mode })
        _ ← do_gc true
        return tt
      in let migrate : St ConvFtl (Unit {0}) = do
        modify (λ t. record t { dyn_slc_mode = slc_mode })
        _ ← do_gc true
        return tt
        in if should_migration_high s
          then (when (should_gc_high s) collect >> when (is_slc s.slc_mode) migrate) s
          else some (tt, s)

  unfoldable pub check_and_refill_write_credit : St ConvFtl (Unit {0})
  unfolding foreground_gc refill_credits
  check_and_refill_write_credit s =
      if s.wfc.write_credits == 0 then (foreground_gc >> modify refill_credits) s else some (tt, s)
