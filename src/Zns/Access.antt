-- ===== src/Zns/Access.antt =====
-- What the reads and writes of zns_read_write.c share.
use nvmevirt_slc_cache.Common.{
  ℕ, ◌+◌, ◌-◌, ◌*◌, ◌/◌, ◌%◌, min, Bool, false, not, ◌||◌, none, some, ◌∷◌, ◌==◌, if◌then◌else◌,
  update, u8, u16, u32, u64, sub64, St,
}
use nvmevirt_slc_cache.Ppa.{Ppa}
use nvmevirt_slc_cache.Nand.{Ssd, Machine, nand_write, ssd_advance_nand}
use nvmevirt_slc_cache.Nand.WriteBuffer.{buffer_allocate}
use nvmevirt_slc_cache.Zns.State.{
  full, active_zone, open_zone, Status, BufferRef, drive_buffer, zone_buffer, zone_zrwa_buffer,
  ZnsFtl,
}
use nvmevirt_slc_cache.Zns.Zones.{
  set_desc, release_zone_resource, change_zone_state, lpn_to_zone, zone_to_slpn, lba_to_zone,
  zone_to_slba, die_to_channel, die_to_lun,
}

-- `struct nvme_rw_command` as far as it is read, with the queue and the start time of the request.
-- `is_append` tells Zone Append from Write.
pub record ZoneRequest : Type 0 where
  pub is_append : Bool
  pub slba : ℕ
  pub length : ℕ
  pub fua : Bool
  pub sq_id : ℕ
  pub nsecs_start : ℕ

-- `struct nvmev_result`.
pub record ZoneResult : Type 0 where
  pub status : Status
  pub nsecs_target : ℕ

-- An operation of the drive.
abbrev pub on_drive : {A : Type 0} → St Ssd A → St ZnsFtl A
on_drive op z = elim (op z.ssd) [ none ↦ none | some (a, d) ↦ some (a, record z { ssd = d }) ]

-- `__nr_lbas_from_rw_cmd`
abbrev pub nr_lbas : ZoneRequest → ℕ
nr_lbas q = q.length + 1

-- `__check_boundary_error`: true if the request stays in one zone.
unfoldable pub check_boundary_error : ZnsFtl → ℕ → ℕ → Bool
unfolding lba_to_zone
check_boundary_error z slba nr_lba =
    lba_to_zone z slba == lba_to_zone z (sub64 (u64 (slba + nr_lba)) 1)

-- `__increase_write_ptr`: at the end of the zone it becomes full. Its resource for a random write
-- area is not released.
unfoldable pub increase_write_ptr : ℕ → ℕ → ZnsFtl → ZnsFtl
unfolding zone_to_slba release_zone_resource change_zone_state
increase_write_ptr zid nr_lba z =
    let d = z.zone_descs zid in
    let wp = u64 (d.wp + nr_lba) in
    let t = set_desc zid (record d { wp = wp }) z in
    if wp == u64 (zone_to_slba z zid + d.zone_capacity)
    then change_zone_state zid full
        (release_zone_resource active_zone (release_zone_resource open_zone t))
    else t

-- `__lpn_to_ppa`: the pages of a zone go over its dies, a wordline at a time. The page number is the
-- one in its wordline, and the block is 0.
unfoldable pub lpn_to_ppa : ZnsFtl → ℕ → Ppa
unfolding lpn_to_zone zone_to_slpn die_to_channel die_to_lun
lpn_to_ppa z lpn =
    let spp = z.ssd.sp in
    let zone = lpn_to_zone z lpn in
    let off = sub64 lpn (zone_to_slpn z zone) in
    let sdie = u32 (zone * z.zp.dies_per_zone % spp.tt_luns) in
    let die = u32 (sdie + off / spp.pgs_per_oneshotpg % z.zp.dies_per_zone) in
    record {
      pg = u16 (off % spp.pgs_per_oneshotpg);
      blk = 0;
      pl = 0;
      lun = u8 (die_to_lun z die);
      ch = u8 (die_to_channel z die);
      rsv = 0;
    }

-- The buffer that a write to a zone takes its space from.
abbrev pub write_buffer_of : ZnsFtl → ℕ → BufferRef
write_buffer_of z zid = if z.zp.zone_wb_size == 0 then drive_buffer else zone_buffer zid

-- `buffer_allocate` on the buffer that a pointer names.
unfoldable pub allocate : BufferRef → ℕ → St ZnsFtl ℕ
unfolding buffer_allocate
allocate drive_buffer size z = elim (buffer_allocate size z.ssd.write_buffer) [
  | none ↦ none
  | some (n, b) ↦ some (n, record z { ssd = record (z.ssd) { write_buffer = b } })
]
allocate (zone_buffer i) size z = elim (buffer_allocate size (z.zone_write_buffer i)) [
  | none ↦ none
  | some (n, b) ↦ some (n, record z { zone_write_buffer = update z.zone_write_buffer i b })
]
allocate (zone_zrwa_buffer i) size z = elim (buffer_allocate size (z.zrwa_buffer i)) [
  | none ↦ none
  | some (n, b) ↦ some (n, record z { zrwa_buffer = update z.zrwa_buffer i b })
]

-- `schedule_internal_operation`
unfoldable pub schedule : ℕ → ℕ → BufferRef → ℕ → ZnsFtl → ZnsFtl
schedule sq_id target buffer amount z = record z {
  scheduled =
      record { sq_id = sq_id; nsecs_target = target; buffer = buffer; amount = amount }
      ∷ z.scheduled;
}

-- How many pages a round of a write covers: up to the end of the wordline, at most `remaining`.
abbrev pub round_pgs : ℕ → ℕ → ℕ → ℕ
round_pgs oneshot pg remaining = min remaining (oneshot - pg % oneshot)

-- The end of both writes: with early completion the host waits for the transfer only.
abbrev pub written : ZoneRequest → Status → ℕ → ℕ → ZnsFtl → ZoneResult
written q st transferred latest z = record {
  status = st;
  nsecs_target = if q.fua || not z.ssd.sp.write_early_completion then latest else transferred;
}

module _ (m : Machine) where
  -- The flash write of a wordline, as early as `stime`.
  unfoldable pub write_wordline : Ppa → ℕ → St ZnsFtl ℕ
  unfolding ssd_advance_nand
  write_wordline p stime z =
      on_drive
        (ssd_advance_nand m (record {
          cmd = nand_write;
          xfer_size = z.ssd.sp.pgs_per_oneshotpg * z.ssd.sp.pgsz;
          stime = stime;
          interleave_pci_dma = false;
          ppa = p;
        }))
        z
