-- ===== src/Zns/Read.antt =====
-- `zns_read` of zns_read_write.c. A request that is refused reads the flash all the same.
use nvmevirt_slc_cache.Common.{
  ℕ, zero, suc, ◌+◌, ◌-◌, ◌*◌, ◌^◌, max, false, none, some, leb, if◌then◌else◌, u64, sub64, kb, St,
  ◌>>=◌, return,
}
use nvmevirt_slc_cache.Nand.{Machine, nand_read, ssd_advance_nand, ssd_advance_pcie}
use nvmevirt_slc_cache.Zns.State.{offline, Status, success, err_boundary, err_offline, ZnsFtl}
use nvmevirt_slc_cache.Zns.Zones.{lpn_to_zone, lba_to_lpn}
use nvmevirt_slc_cache.Zns.Access.{
  ZoneRequest, ZoneResult, on_drive, nr_lbas, check_boundary_error, lpn_to_ppa, round_pgs,
}

-- The status of a read.
unfoldable pub read_status : ZoneRequest → ZnsFtl → Status
unfolding check_boundary_error lpn_to_zone lba_to_lpn
read_status q z = elim (z.zone_descs (lpn_to_zone z (lba_to_lpn z q.slba))).state [
  | offline ↦ err_offline
  | _ ↦ if check_boundary_error z q.slba (nr_lbas q) then success else err_boundary
]

module _ (m : Machine) where
  -- The loop over the pages, a flash page at a time, on fuel.
  unfoldable pub read_pages : ℕ → ℕ → ℕ → ℕ → ℕ → St ZnsFtl ℕ
  unfolding lpn_to_ppa ssd_advance_nand
  read_pages zero elpn stime lpn latest z = if leb lpn elpn then none else some (latest, z)
  read_pages (suc fuel) elpn stime lpn latest z =
      let p = lpn_to_ppa z lpn in
      let pgs = round_pgs z.ssd.sp.pgs_per_flashpg p.pg (elpn - lpn + 1) in
      let run : St ZnsFtl ℕ = do
        done ← on_drive (
            ssd_advance_nand m (record {
              cmd = nand_read;
              xfer_size = pgs * z.ssd.sp.pgsz;
              stime = stime;
              interleave_pci_dma = false;
              ppa = p;
            }))
        read_pages fuel elpn stime (lpn + pgs) (max done latest)
      in if leb lpn elpn then run z else some (latest, z)

  unfoldable pub zns_read : ZoneRequest → St ZnsFtl ZoneResult
  unfolding read_status read_pages ssd_advance_pcie lba_to_lpn
  zns_read q z =
      let first = lba_to_lpn z q.slba in
      let last = lba_to_lpn z (sub64 (u64 (q.slba + nr_lbas q)) 1) in
      let delay =
        if leb (u64 (nr_lbas q * 2 ^ m.config.lba_bits)) (kb 4)
        then z.ssd.sp.fw_4kb_rd_lat
        else z.ssd.sp.fw_rd_lat in
      let stime = u64 (q.nsecs_start + delay) in
      let run : St ZnsFtl ZoneResult = do
        latest ← read_pages (last + 1 - first) last stime first stime
        done ← on_drive (ssd_advance_pcie m latest (u64 (nr_lbas q * z.ssd.sp.secsz)))
        return (record { status = read_status q z; nsecs_target = max done latest })
      in run z
