-- ===== src/Zns/Write.antt =====
-- `__zns_write` of zns_read_write.c, the write to a zone without a random write area.
use nvmevirt_slc_cache.Common.{
  ℕ, zero, suc, ◌+◌, ◌-◌, ◌*◌, ◌%◌, ◌^◌, max, Bool, not, ◌&&◌, ◌||◌, Option, none, some, ltb, leb,
  ◌==◌, if◌then◌else◌, u64, sub64, St, ◌>>=◌, ◌>>◌, return, modify,
}
use nvmevirt_slc_cache.Nand.{Machine, ssd_advance_write_buffer}
use nvmevirt_slc_cache.Zns.State.{
  ZoneState, empty, opened_impl, opened_expl, closed, read_only, full, offline, active_zone,
  open_zone, Status, success, err_boundary, err_full, err_read_only, err_offline, invalid_write,
  no_active_zone, no_open_zone, BufferRef, ZnsFtl,
}
use nvmevirt_slc_cache.Zns.Zones.{
  is_zone_resource_full, acquire_zone_resource, change_zone_state, lba_to_zone, zone_to_elpn,
  lba_to_lpn,
}
use nvmevirt_slc_cache.Zns.Access.{
  ZoneRequest, ZoneResult, on_drive, nr_lbas, check_boundary_error, increase_write_ptr, lpn_to_ppa,
  write_buffer_of, allocate, schedule, round_pgs, written, write_wordline,
}

-- The `switch` of `__zns_write` on the state, from the label of a closed zone on.
unfoldable pub write_closed : ℕ → ZnsFtl → Status × ZnsFtl
unfolding acquire_zone_resource change_zone_state
write_closed zid z =
    let (ok, t) = acquire_zone_resource open_zone z in
    if ok then (success, change_zone_state zid opened_impl t) else (no_open_zone, t)

unfoldable pub write_empty : ℕ → ℕ → ZnsFtl → Status × ZnsFtl
unfolding is_zone_resource_full acquire_zone_resource write_closed
write_empty zid slba z =
    if not (slba == (z.zone_descs zid).zslba)
    then (invalid_write, z)
    else if is_zone_resource_full z active_zone
    then (no_active_zone, z)
    else if is_zone_resource_full z open_zone
    then (no_open_zone, z)
    else let (_, t) = acquire_zone_resource active_zone z in write_closed zid t

unfoldable pub write_from : ZoneState → ℕ → ℕ → ZnsFtl → Status × ZnsFtl
unfolding write_empty write_closed
write_from empty zid slba z = write_empty zid slba z
write_from closed zid slba z = write_closed zid z
write_from opened_impl zid slba z = (success, z)
write_from opened_expl zid slba z = (success, z)
write_from full zid slba z = (err_full, z)
write_from read_only zid slba z = (err_read_only, z)
write_from offline zid slba z = (err_offline, z)

-- The checks of `__zns_write` before the flash is used; after them the write pointer moves.
unfoldable pub admit_write : Machine → ℕ → ℕ → ℕ → ZnsFtl → Status × ZnsFtl
unfolding check_boundary_error write_from increase_write_ptr
admit_write m zid slba nr_lba z =
    let bytes = u64 (nr_lba * 2 ^ m.config.lba_bits) in
    let (st, t) = write_from (z.zone_descs zid).state zid slba z in
    if not (bytes % z.ssd.sp.write_unit_size == 0)
    then (invalid_write, z)
    else if not (check_boundary_error z slba nr_lba)
    then (err_boundary, z)
    else if not (slba == (z.zone_descs zid).wp)
    then (invalid_write, z)
    else (st, elim st [ success ↦ increase_write_ptr zid nr_lba t | _ ↦ t ])

-- The release of the space of a wordline; at the end of a zone that is no whole number of wordlines,
-- of what is left over.
abbrev pub bufs_to_release : ZnsFtl → Bool → ℕ
bufs_to_release z at_end =
    let wordline = z.ssd.sp.pgs_per_oneshotpg * z.ssd.sp.pgsz in
    let unaligned_space = z.zp.zone_size % wordline in
    if at_end && ltb 0 unaligned_space then unaligned_space else wordline

-- What the loop of `__zns_write` reads and does not change.
pub record Writing : Type 0 where
  pub elpn : ℕ
  pub zone_elpn : ℕ
  pub stime : ℕ
  pub sq_id : ℕ
  pub buffer : BufferRef

module _ (m : Machine) where
  -- A round of the loop: the flash is written if the wordline, or the zone, ends here.
  unfoldable pub write_round : Writing → ℕ → ℕ → ℕ → St ZnsFtl ℕ
  unfolding lpn_to_ppa write_wordline schedule
  write_round w lpn pgs latest z =
      let p = lpn_to_ppa z lpn in
      let oneshot = z.ssd.sp.pgs_per_oneshotpg in
      let at_end = lpn + pgs - 1 == w.zone_elpn in
      let flush : St ZnsFtl ℕ = do
        done ← write_wordline m p w.stime
        modify (λ t. schedule w.sq_id done w.buffer (bufs_to_release t at_end) t)
        return (max done latest)
      in if p.pg % oneshot + pgs == oneshot || at_end then flush z else some (latest, z)

  -- The loop over the pages, on fuel.
  unfoldable pub write_pages : ℕ → Writing → ℕ → ℕ → St ZnsFtl ℕ
  unfolding lpn_to_ppa write_round
  write_pages zero w lpn latest z = if leb lpn w.elpn then none else some (latest, z)
  write_pages (suc fuel) w lpn latest z =
      let pgs = round_pgs z.ssd.sp.pgs_per_oneshotpg (lpn_to_ppa z lpn).pg (w.elpn - lpn + 1) in
      let run : St ZnsFtl ℕ = do
        latest' ← write_round w lpn pgs latest
        write_pages fuel w (lpn + pgs) latest'
      in if leb lpn w.elpn then run z else some (latest, z)

  -- After the checks: the transfer and the flash writes.
  unfoldable pub write_zone : ZoneRequest → ℕ → ℕ → BufferRef → St ZnsFtl ZoneResult
  unfolding write_pages ssd_advance_write_buffer lba_to_lpn zone_to_elpn
  write_zone q zid slba buffer z =
      let nr_lba = nr_lbas q in
      let first = lba_to_lpn z slba in
      let last = lba_to_lpn z (sub64 (u64 (slba + nr_lba)) 1) in
      let run : St ZnsFtl ZoneResult = do
        transferred ←
            on_drive
              (ssd_advance_write_buffer m q.nsecs_start (u64 (nr_lba * 2 ^ m.config.lba_bits)))
        latest ←
            write_pages (last + 1 - first)
              (record {
                elpn = last;
                zone_elpn = zone_to_elpn z zid;
                stime = transferred;
                sq_id = q.sq_id;
                buffer = buffer;
              })
              first transferred
        λ t. some (written q success transferred latest t, t)
      in run z

  -- `__zns_write`. It gives the `slba` of the command, which Zone Append sets, and the result; `none`
  -- is the result false. The space taken from the buffer is kept also where a check refuses the write.
  unfoldable pub zns_write_plain : ZoneRequest → St ZnsFtl (ℕ × Option ZoneResult)
  unfolding lba_to_zone allocate admit_write write_zone
  zns_write_plain q z =
      let zid = lba_to_zone z q.slba in
      let slba = if q.is_append then (z.zone_descs zid).wp else q.slba in
      let bytes = u64 (nr_lbas q * 2 ^ m.config.lba_bits) in
      let buffer = write_buffer_of z zid in
      elim (allocate buffer bytes z) [
        | none ↦ none
        | some (got, t) ↦
            if ltb got bytes
            then some ((slba, none), t)
            else let (st, u) = admit_write m zid slba (nr_lbas q) t in
              elim st [
                | success ↦ elim (write_zone q zid slba buffer u) [
                  | none ↦ none
                  | some (r, v) ↦ some ((slba, some r), v)
                ]
                | refused ↦ some ((slba, some (written q refused q.nsecs_start q.nsecs_start u)), u)
              ]
      ]
