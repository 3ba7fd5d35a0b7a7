-- ===== src/Zns/Zones.antt =====
-- The inline functions of zns_ftl.h: resources, states, and the arithmetic of zones. `ASSERT` is
-- defined as nothing, so a release of a resource that is not held wraps.
use nvmevirt_slc_cache.Common.{
  ℕ, ◌+◌, ◌*◌, ◌/◌, ◌%◌, Bool, true, false, ltb, ◌==◌, if◌then◌else◌, update, u32, sub32, sub64,
}
use nvmevirt_slc_cache.Zns.State.{
  ZoneState, ZoneResourceType, active_zone, open_zone, zrwa_zone, ZoneResourceInfo, ZoneDescriptor,
  ZnsFtl,
}

-- A write to `res_infos`.
abbrev pub set_res :
    (ZoneResourceType → ZoneResourceInfo)
    → ZoneResourceType
    → ZoneResourceInfo
    → ZoneResourceType
    → ZoneResourceInfo
set_res r active_zone v active_zone = v
set_res r open_zone v open_zone = v
set_res r zrwa_zone v zrwa_zone = v
set_res r _ v t = r t

-- A write to a zone descriptor.
abbrev pub set_desc : ℕ → ZoneDescriptor → ZnsFtl → ZnsFtl
set_desc zid d z = record z { zone_descs = update z.zone_descs zid d }

unfoldable pub is_zone_resource_avail : ZnsFtl → ZoneResourceType → Bool
is_zone_resource_avail z t = ltb (z.res_infos t).acquired_cnt (z.res_infos t).total_cnt

unfoldable pub is_zone_resource_full : ZnsFtl → ZoneResourceType → Bool
is_zone_resource_full z t = (z.res_infos t).acquired_cnt == (z.res_infos t).total_cnt

-- The count of a resource changed.
abbrev pub recount_res : ZoneResourceType → ℕ → ZnsFtl → ZnsFtl
recount_res t n z = record z {
  res_infos = set_res z.res_infos t (record (z.res_infos t) { acquired_cnt = n });
}

unfoldable pub acquire_zone_resource : ZoneResourceType → ZnsFtl → Bool × ZnsFtl
unfolding is_zone_resource_avail
acquire_zone_resource t z =
    if is_zone_resource_avail z t
    then (true, recount_res t (u32 ((z.res_infos t).acquired_cnt + 1)) z)
    else (false, z)

unfoldable pub release_zone_resource : ZoneResourceType → ZnsFtl → ZnsFtl
release_zone_resource t z = recount_res t (sub32 (z.res_infos t).acquired_cnt 1) z

unfoldable pub change_zone_state : ℕ → ZoneState → ZnsFtl → ZnsFtl
change_zone_state zid st z = set_desc zid (record (z.zone_descs zid) { state = st }) z

-- The products are of 32-bit numbers.
unfoldable pub lpn_to_zone : ZnsFtl → ℕ → ℕ
lpn_to_zone z lpn = u32 (lpn / (z.zp.zone_size / z.ssd.sp.pgsz))

unfoldable pub zone_to_slpn : ZnsFtl → ℕ → ℕ
zone_to_slpn z zid = u32 (zid * (z.zp.zone_size / z.ssd.sp.pgsz))

unfoldable pub lba_to_zone : ZnsFtl → ℕ → ℕ
lba_to_zone z lba = u32 (lba / (z.zp.zone_size / z.ssd.sp.secsz))

unfoldable pub zone_to_slba : ZnsFtl → ℕ → ℕ
zone_to_slba z zid = u32 (zid * (z.zp.zone_size / z.ssd.sp.secsz))

unfoldable pub zone_to_elba : ZnsFtl → ℕ → ℕ
unfolding zone_to_slba
zone_to_elba z zid = sub64 (zone_to_slba z (u32 (zid + 1))) 1

unfoldable pub zone_to_elpn : ZnsFtl → ℕ → ℕ
unfolding zone_to_elba
zone_to_elpn z zid = zone_to_elba z zid / z.ssd.sp.secs_per_pg

unfoldable pub die_to_channel : ZnsFtl → ℕ → ℕ
die_to_channel z die = die % z.ssd.sp.nchs

unfoldable pub die_to_lun : ZnsFtl → ℕ → ℕ
die_to_lun z die = die / z.ssd.sp.nchs

unfoldable pub lba_to_lpn : ZnsFtl → ℕ → ℕ
lba_to_lpn z lba = lba / z.ssd.sp.secs_per_pg
