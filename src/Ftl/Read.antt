-- ===== src/Ftl/Read.antt =====
-- `conv_read` of conv_ftl.c.
use nvmevirt_slc_cache.Common.{
  ℕ, zero, suc, ◌+◌, ◌-◌, ◌*◌, ◌/◌, ◌%◌, max, true, not, ◌&&◌, ◌||◌, Option, none, some, ltb, leb,
  if◌then◌else◌, u32, u64, kb, St, ◌>>=◌, return,
}
use nvmevirt_slc_cache.Ppa.{Ppa, mapped_ppa, is_same_flash_page}
use nvmevirt_slc_cache.Nand.{Machine, NandCmd, nand_read, ssd_advance_nand}
use nvmevirt_slc_cache.Ftl.State.{on_ssd}
use nvmevirt_slc_cache.Ftl.Mapping.{get_maptbl_ent, valid_ppa}
use nvmevirt_slc_cache.Ftl.Namespace.{
  Namespace, on_ftl, RwRequest, Served, nr_lba, start_lpn, end_lpn, lba_to_byte,
}

-- The variables of the inner loop of `conv_read`.
pub record Reading : Type 0 where
  pub xfer_size : ℕ
  pub prev_ppa : Ppa
  pub nsecs_latest : ℕ

module _ (m : Machine) where
  -- The flash read of what was gathered, if anything was.
  unfoldable pub issue_read : ℕ → ℕ → Reading → St Namespace ℕ
  unfolding on_ftl
  issue_read part stime r ns =
      let c : NandCmd = record {
        cmd = nand_read;
        xfer_size = r.xfer_size;
        stime = stime;
        interleave_pci_dma = true;
        ppa = r.prev_ppa;
      } in
      let run : St Namespace ℕ = do
        done ← on_ftl part (on_ssd (ssd_advance_nand m c))
        return (max done r.nsecs_latest)
      in if ltb 0 r.xfer_size then run ns else some (r.nsecs_latest, ns)

  -- One round of the inner loop, at a local page number.
  unfoldable pub read_page : ℕ → ℕ → ℕ → Reading → St Namespace Reading
  unfolding issue_read is_same_flash_page valid_ppa mapped_ppa get_maptbl_ent
  read_page part stime local_lpn r ns =
      let f = ns.ftls part in
      let spp = f.ssd.sp in
      let cur = get_maptbl_ent f local_lpn in
      let flush : St Namespace Reading = do
        latest ← issue_read part stime r
        return (record { xfer_size = spp.pgsz; prev_ppa = cur; nsecs_latest = latest })
      in if not (mapped_ppa cur) || not (valid_ppa f cur)
        then some (r, ns)
        else if mapped_ppa r.prev_ppa && is_same_flash_page spp cur r.prev_ppa
        then some (record r { xfer_size = u32 (r.xfer_size + spp.pgsz) }, ns)
        else flush ns

  -- The inner loop: `rounds` pages of the part, the local numbers one apart.
  unfoldable pub read_pages : ℕ → ℕ → ℕ → ℕ → Reading → St Namespace Reading
  unfolding read_page
  read_pages zero part stime local_lpn r ns = some (r, ns)
  read_pages (suc rounds) part stime local_lpn r ns = elim (read_page part stime local_lpn r ns) [
    | none ↦ none
    | some (r', ns') ↦ read_pages rounds part stime (local_lpn + 1) r' ns'
  ]

  -- The outer loop, over the parts that the range `start … end` touches.
  unfoldable pub read_parts : ℕ → ℕ → ℕ → ℕ → ℕ → St Namespace ℕ
  unfolding read_pages issue_read
  read_parts zero start end stime latest ns = some (latest, ns)
  read_parts (suc n) start end stime latest ns =
      let part = start % ns.nr_parts in
      let first = start / ns.nr_parts in
      let rounds = (end - start) / ns.nr_parts + 1 in
      let r : Reading = record {
        xfer_size = 0;
        prev_ppa = get_maptbl_ent (ns.ftls part) first;
        nsecs_latest = latest;
      } in
      let run : St Namespace ℕ = do
        r' ← read_pages rounds part stime first r
        done ← issue_read part stime r'
        read_parts n (start + 1) end stime done
      in if leb start end then run ns else some (latest, ns)

  unfoldable pub conv_read : RwRequest → St Namespace (Option Served)
  unfolding read_parts
  conv_read q ns =
      let spp = (ns.ftls 0).ssd.sp in
      let first = start_lpn spp q in
      let last = end_lpn spp q in
      let delay =
        if leb (lba_to_byte m (nr_lba q)) (kb 4 * ns.nr_parts)
        then spp.fw_4kb_rd_lat
        else spp.fw_rd_lat in
      let run : St Namespace (Option Served) = do
        latest ← read_parts ns.nr_parts first last (u64 (q.nsecs_start + delay)) q.nsecs_start
        return (some (record { nsecs_target = latest }))
      in if leb spp.tt_pgs (last / ns.nr_parts) then some (none, ns) else run ns
