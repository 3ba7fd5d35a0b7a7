-- ===== src/Zns/Zrwa.antt =====
-- `__zns_write_zrwa` of zns_read_write.c, the write to a zone with a random write area, and `zns_write`.
use nvmevirt_slc_cache.Common.{
  ℕ, zero, suc, ◌+◌, ◌-◌, ◌*◌, ◌/◌, ◌%◌, ◌^◌, max, Bool, true, false, not, ◌||◌, Option, none, some,
  ltb, leb, ◌==◌, if◌then◌else◌, u32, u64, sub64, div_round_up, St, ◌>>=◌, ◌>>◌, return, modify,
}
use nvmevirt_slc_cache.Nand.{Machine, ssd_advance_write_buffer}
use nvmevirt_slc_cache.Zns.State.{
  ZoneState, empty, opened_impl, opened_expl, closed, read_only, full, offline, open_zone, Status,
  success, err_boundary, err_full, err_read_only, err_offline, invalid_write, no_open_zone,
  zone_zrwa_buffer, ZnsFtl,
}
use nvmevirt_slc_cache.Zns.Zones.{
  acquire_zone_resource, change_zone_state, lba_to_zone, lpn_to_zone, lba_to_lpn, zone_to_elba,
}
use nvmevirt_slc_cache.Zns.Access.{
  ZoneRequest, ZoneResult, on_drive, nr_lbas, check_boundary_error, increase_write_ptr, lpn_to_ppa,
  allocate, schedule, round_pgs, written, write_wordline,
}
use nvmevirt_slc_cache.Zns.Write.{zns_write_plain}

-- The `switch` on the state, from the labels of a closed and an empty zone on: the zone opens and its
-- random write area takes its buffer space, without which the kernel stops.
unfoldable pub open_zrwa : ℕ → ZnsFtl → Option (Status × ZnsFtl)
unfolding acquire_zone_resource allocate change_zone_state
open_zrwa zid z =
    let (ok, t) = acquire_zone_resource open_zone z in
    if not ok
    then some (no_open_zone, t)
    else elim (allocate (zone_zrwa_buffer zid) z.zp.zrwa_size t) [
      | none ↦ none
      | some (got, u) ↦
          if got == 0 then none else some (success, change_zone_state zid opened_impl u)
    ]

unfoldable pub write_zrwa_from : ZoneState → ℕ → ZnsFtl → Option (Status × ZnsFtl)
unfolding open_zrwa
write_zrwa_from closed zid z = open_zrwa zid z
write_zrwa_from empty zid z = open_zrwa zid z
write_zrwa_from opened_impl zid z = some (success, z)
write_zrwa_from opened_expl zid z = some (success, z)
write_zrwa_from full zid z = some (err_full, z)
write_zrwa_from read_only zid z = some (err_read_only, z)
write_zrwa_from offline zid z = some (err_offline, z)

-- The last block of a write.
abbrev pub elba_of : ZoneRequest → ℕ
elba_of q = sub64 (u64 (q.slba + nr_lbas q)) 1

-- The checks before the `switch`: the write lies in one zone and in the area and its next copy.
unfoldable pub admit_zrwa : Machine → ℕ → ZoneRequest → ZnsFtl → Option (Status × ZnsFtl)
unfolding check_boundary_error write_zrwa_from
admit_zrwa m zid q z =
    let wp = (z.zone_descs zid).wp in
    let zrwa_impl_end = sub64 (u64 (wp + u32 (2 * z.zp.lbas_per_zrwa))) 1 in
    if not (u64 (nr_lbas q * 2 ^ m.config.lba_bits) % z.ssd.sp.write_unit_size == 0)
    then some (invalid_write, z)
    else if not (check_boundary_error z q.slba (nr_lbas q))
    then some (err_boundary, z)
    else if ltb q.slba wp || ltb zrwa_impl_end (elba_of q)
    then some (invalid_write, z)
    else write_zrwa_from (z.zone_descs zid).state zid z

-- The blocks that a write flushes: whole flush groups if it goes past the area, all up to the end of
-- the zone if it ends there, and otherwise none.
unfoldable pub nr_lbas_flush : ℕ → ℕ → ZnsFtl → Option ℕ
unfolding zone_to_elba
nr_lbas_flush zid elba z =
    let wp = (z.zone_descs zid).wp in
    let zrwa_impl_start = u64 (wp + z.zp.lbas_per_zrwa) in
    let fg = z.zp.lbas_per_zrwafg in
    if leb zrwa_impl_start elba
    then (if fg == 0 then none else some (u64 (div_round_up (elba - zrwa_impl_start + 1) fg * fg)))
    else if elba == zone_to_elba z zid
    then some (u64 (sub64 elba wp + 1))
    else some 0

-- The space of the flushed blocks and the move of the write pointer; false if there is no space.
unfoldable pub flush_zrwa : Machine → ℕ → ℕ → St ZnsFtl Bool
unfolding allocate increase_write_ptr
flush_zrwa m zid n z =
    if n == 0
    then some (true, z)
    else elim (allocate (zone_zrwa_buffer zid) (u64 (n * 2 ^ m.config.lba_bits)) z) [
      | none ↦ none
      | some (got, t) ↦
          if got == 0 then some (false, t) else some (true, increase_write_ptr zid (u32 n) t)
    ]

module _ (m : Machine) where
  -- A round of the loop: the flash is written where a wordline ends.
  unfoldable pub zrwa_round : ZoneRequest → ℕ → ℕ → ℕ → ℕ → ℕ → St ZnsFtl ℕ
  unfolding lpn_to_ppa write_wordline schedule
  zrwa_round q zid stime lpn pgs latest z =
      let p = lpn_to_ppa z lpn in
      let oneshot = z.ssd.sp.pgs_per_oneshotpg in
      let flush : St ZnsFtl ℕ = do
        done ← write_wordline m p stime
        modify (λ t.
            schedule q.sq_id done (zone_zrwa_buffer zid)
              (t.ssd.sp.pgs_per_oneshotpg * t.ssd.sp.pgsz) t)
        return (max done latest)
      in if p.pg % oneshot + pgs == oneshot then flush z else some (latest, z)

  -- The loop over the flushed pages, on fuel.
  unfoldable pub zrwa_pages : ℕ → ZoneRequest → ℕ → ℕ → ℕ → ℕ → ℕ → St ZnsFtl ℕ
  unfolding lpn_to_ppa zrwa_round
  zrwa_pages zero q zid stime lpn remaining latest z =
      if remaining == 0 then some (latest, z) else none
  zrwa_pages (suc fuel) q zid stime lpn remaining latest z =
      let pgs = round_pgs z.ssd.sp.pgs_per_oneshotpg (lpn_to_ppa z lpn).pg remaining in
      let run : St ZnsFtl ℕ = do
        latest' ← zrwa_round q zid stime lpn pgs latest
        zrwa_pages fuel q zid stime (lpn + pgs) (remaining - pgs) latest'
      in if remaining == 0 then some (latest, z) else run z

  -- After the checks: the flush, the transfer and the flash writes; `none` is the result false.
  unfoldable pub write_area_of : ZoneRequest → ℕ → St ZnsFtl (Option ZoneResult)
  unfolding nr_lbas_flush flush_zrwa zrwa_pages ssd_advance_write_buffer lba_to_lpn
  write_area_of q zid z =
      let prev_wp = (z.zone_descs zid).wp in
      elim (nr_lbas_flush zid (elba_of q) z) [
        | none ↦ none
        | some n ↦ elim (flush_zrwa m zid n z) [
          | none ↦ none
          | some (false, t) ↦ some (none, t)
          | some (true, t) ↦
              let pages = n / z.ssd.sp.secs_per_pg in
              let run : St ZnsFtl (Option ZoneResult) = do
                transferred ← on_drive (
                    ssd_advance_write_buffer m q.nsecs_start
                      (u64 (nr_lbas q * 2 ^ m.config.lba_bits)))
                latest ← zrwa_pages pages q zid transferred (lba_to_lpn t prev_wp) pages transferred
                λ u. some (some (written q success transferred latest u), u)
              in run t
        ]
      ]

  unfoldable pub zns_write_zrwa : ZoneRequest → St ZnsFtl (Option ZoneResult)
  unfolding lba_to_zone admit_zrwa write_area_of
  zns_write_zrwa q z =
      let zid = lba_to_zone z q.slba in
      elim (admit_zrwa m zid q z) [
        | none ↦ none
        | some (success, t) ↦ write_area_of q zid t
        | some (refused, t) ↦ some (some (written q refused q.nsecs_start q.nsecs_start t), t)
      ]

  -- `zns_write`, with the `slba` that the command has afterwards.
  unfoldable pub zns_write : ZoneRequest → St ZnsFtl (ℕ × Option ZoneResult)
  unfolding lpn_to_zone lba_to_lpn zns_write_plain zns_write_zrwa
  zns_write q z =
      if (z.zone_descs (lpn_to_zone z (lba_to_lpn z q.slba))).zrwav
      then elim (zns_write_zrwa q z) [ none ↦ none | some (r, t) ↦ some ((q.slba, r), t) ]
      else zns_write_plain m q z
