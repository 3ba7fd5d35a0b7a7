-- ===== src/Ftl/Write.antt =====
-- `conv_write` of conv_ftl.c.
use nvmevirt_slc_cache.Common.{
  ℕ, zero, suc, ◌+◌, ◌-◌, ◌*◌, ◌/◌, ◌%◌, max, false, not, ◌||◌, Option, none, some, ◌∷◌, ltb, leb,
  if◌then◌else◌, St, ◌>>=◌, ◌>>◌, return, get, modify, when,
}
use nvmevirt_slc_cache.Ppa.{Ppa, mapped_ppa, invalid_lpn}
use nvmevirt_slc_cache.Nand.{
  Buffer, Ssd, Machine, nand_write, ssd_advance_nand, ssd_advance_write_buffer,
}
use nvmevirt_slc_cache.Nand.WriteBuffer.{buffer_allocate}
use nvmevirt_slc_cache.Ftl.State.{user_io, is_slc, ConvFtl, Pqueue, line_at, set_line, on_ssd}
use nvmevirt_slc_cache.Ftl.Mapping.{
  get_maptbl_ent, set_maptbl_ent, set_rmap_ent, get_line, get_new_page, last_pg_in_wordline,
  last_pg_in_wordline_slc,
}
use nvmevirt_slc_cache.Ftl.Pages.{mark_page_invalid, mark_page_valid}
use nvmevirt_slc_cache.Ftl.Advance.{advance_write_pointer}
use nvmevirt_slc_cache.Ftl.Policy.{consume_write_credit}
use nvmevirt_slc_cache.Ftl.Collect.{check_and_refill_write_credit}
use nvmevirt_slc_cache.Ftl.Namespace.{
  Namespace, on_ftl, RwRequest, Served, nr_lba, start_lpn, end_lpn, lba_to_byte,
}

-- `schedule_internal_operation`: the I/O workers get the release of the buffer.
unfoldable pub schedule_release : ℕ → ℕ → ℕ → Ssd → Ssd
schedule_release sq_id target amount d = record d {
  scheduled = record { sq_id = sq_id; nsecs_target = target; amount = amount } ∷ d.scheduled;
}

module _ (m : Machine) (pq : Pqueue) where
  -- The old page of an overwritten logical page: invalid, without an owner, its line just modified.
  unfoldable pub drop_old : Ppa → St ConvFtl (Unit {0})
  unfolding mark_page_invalid set_rmap_ent get_line
  drop_old p = do
    mark_page_invalid pq p
    set_rmap_ent invalid_lpn p
    modify λ s.
        let r = get_line s p in
        let ssd = record (s.ssd) { reads = s.ssd.reads + 1 } in
        set_line (record s { ssd = ssd }) r
          (record (line_at s r) { mtime = m.ktime_get_ns s.ssd.reads })

  -- The tables' part of a round of `conv_write`: the page gets a new address.
  unfoldable pub map_page : ℕ → St ConvFtl Ppa
  unfolding drop_old get_maptbl_ent get_new_page set_maptbl_ent set_rmap_ent mark_page_valid
      mapped_ppa
  map_page local_lpn s =
      let old = get_maptbl_ent s local_lpn in
      let run : St ConvFtl Ppa = do
        when (mapped_ppa old) (drop_old old)
        new ← get_new_page user_io
        set_maptbl_ent local_lpn new
        set_rmap_ent local_lpn new
        mark_page_valid new
        return new
      in run s

  -- The flash write at the end of a wordline; it transfers the pages of a TLC wordline in both modes,
  -- and releases those of the mode's own.
  unfoldable pub program_wordline : ℕ → ℕ → Ppa → ℕ → ℕ → St ConvFtl ℕ
  unfolding schedule_release
  program_wordline sq_id stime p amount latest = do
    s ← get
    let spp = s.ssd.sp
    done ← on_ssd (
        ssd_advance_nand m (record {
          cmd = nand_write;
          xfer_size = spp.pgsz * spp.pgs_per_oneshotpg;
          stime = stime;
          interleave_pci_dma = false;
          ppa = p;
        }))
    modify (λ t. record t { ssd = schedule_release sq_id done amount t.ssd })
    return (max done latest)

  -- One round of `conv_write`; the result is the new `nsecs_latest`.
  unfoldable pub write_page : ℕ → ℕ → ℕ → ℕ → St ConvFtl ℕ
  unfolding map_page advance_write_pointer program_wordline consume_write_credit
      check_and_refill_write_credit last_pg_in_wordline last_pg_in_wordline_slc
  write_page sq_id stime local_lpn latest = do
    p ← map_page local_lpn
    advance_write_pointer pq user_io
    s ← get
    let spp = s.ssd.sp
    let whole =
        if is_slc s.slc_mode then last_pg_in_wordline_slc spp p else last_pg_in_wordline spp p
    let pages = if is_slc s.slc_mode then spp.pgs_per_oneshotpg_slc else spp.pgs_per_oneshotpg
    now ←
        (if whole then program_wordline sq_id stime p (pages * spp.pgsz) latest else return latest)
    modify consume_write_credit
    check_and_refill_write_credit m pq
    return now

  -- The loop of `conv_write` over `n` pages.
  unfoldable pub write_pages : ℕ → ℕ → ℕ → ℕ → ℕ → St Namespace ℕ
  unfolding on_ftl write_page
  write_pages zero sq_id stime lpn latest ns = some (latest, ns)
  write_pages (suc n) sq_id stime lpn latest ns =
      elim (on_ftl (lpn % ns.nr_parts) (write_page sq_id stime (lpn / ns.nr_parts) latest) ns) [
        | none ↦ none
        | some (now, ns') ↦ write_pages n sq_id stime (lpn + 1) now ns'
      ]

  -- The write buffer, which instance 0 names.
  abbrev pub on_buffer : {A : Type 0} → St Buffer A → St ConvFtl A
  on_buffer op = on_ssd λ d. elim (op d.write_buffer) [
    | none ↦ none
    | some (a, b) ↦ some (a, record d { write_buffer = b })
  ]

  unfoldable pub conv_write : RwRequest → St Namespace (Option Served)
  unfolding write_pages on_ftl buffer_allocate ssd_advance_write_buffer
  conv_write q ns =
      let spp = (ns.ftls 0).ssd.sp in
      let first = start_lpn spp q in
      let last = end_lpn spp q in
      let bytes = lba_to_byte m (nr_lba q) in
      let write : St Namespace (Option Served) = do
        xfer_completed ← on_ftl 0 (on_ssd (ssd_advance_write_buffer m q.nsecs_start bytes))
        latest ← write_pages (last + 1 - first) q.sq_id xfer_completed first xfer_completed
        return (
            some (record {
              nsecs_target =
                  if q.fua || not spp.write_early_completion then latest else xfer_completed;
            }))
      in let run : St Namespace (Option Served) = do
        allocated ← on_ftl 0 (on_buffer (buffer_allocate bytes))
        if ltb allocated bytes then return none else write
        in if leb spp.tt_pgs (last / ns.nr_parts) then some (none, ns) else run ns
