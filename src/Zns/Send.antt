-- ===== src/Zns/Send.antt =====
-- zns_mgmt_send.c: the actions of Zone Management Send. A `switch` on the state of a zone is a
-- function by clauses on that state. The number of a zone is not checked against `nr_zones`.
use nvmevirt_slc_cache.Common.{ℕ, ◌*◌, Bool, true, false, ◌&&◌, ◌==◌, if◌then◌else◌, memset, update}
use nvmevirt_slc_cache.Nand.WriteBuffer.{buffer_refill}
use nvmevirt_slc_cache.Zns.State.{
  ZoneState, empty, opened_impl, opened_expl, closed, read_only, full, offline, active_zone,
  open_zone, zrwa_zone, Status, success, zrwa_rsrc_unavail, no_active_zone, no_open_zone,
  invalid_transition, ZnsFtl,
}
use nvmevirt_slc_cache.Zns.Zones.{
  set_desc, is_zone_resource_full, acquire_zone_resource, release_zone_resource, change_zone_state,
}

-- The `switch` of `__zmgmt_send_close_zone`.
unfoldable pub close_from : ZoneState → ℕ → ZnsFtl → Status × ZnsFtl
unfolding change_zone_state release_zone_resource
close_from opened_impl zid z =
    (success, release_zone_resource open_zone (change_zone_state zid closed z))
close_from opened_expl zid z =
    (success, release_zone_resource open_zone (change_zone_state zid closed z))
close_from closed zid z = (success, z)
close_from _ zid z = (invalid_transition, z)

unfoldable pub zmgmt_send_close_zone : ℕ → ZnsFtl → Status × ZnsFtl
unfolding close_from
zmgmt_send_close_zone zid z = close_from (z.zone_descs zid).state zid z

-- A zone leaves the active ones: its resource, and that of its random write area, are released.
unfoldable pub release_active : Bool → ZnsFtl → ZnsFtl
unfolding release_zone_resource
release_active is_zrwa_zone z =
    let t = release_zone_resource active_zone z in
    if is_zrwa_zone then release_zone_resource zrwa_zone t else t

-- The `switch` of `__zmgmt_send_finish_zone`.
unfoldable pub finish_from : ZoneState → ℕ → Bool → ZnsFtl → Status × ZnsFtl
unfolding change_zone_state release_active
finish_from opened_impl zid zrwa z =
    (success, change_zone_state zid full (release_active zrwa (release_zone_resource open_zone z)))
finish_from opened_expl zid zrwa z =
    (success, change_zone_state zid full (release_active zrwa (release_zone_resource open_zone z)))
finish_from closed zid zrwa z = (success, change_zone_state zid full (release_active zrwa z))
finish_from empty zid zrwa z = (success, change_zone_state zid full z)
finish_from full zid zrwa z = (success, z)
finish_from _ zid zrwa z = (invalid_transition, z)

unfoldable pub zmgmt_send_finish_zone : ℕ → ZnsFtl → Status × ZnsFtl
unfolding finish_from
zmgmt_send_finish_zone zid z = finish_from (z.zone_descs zid).state zid (z.zone_descs zid).zrwav z

-- From the label of a closed zone on.
unfoldable pub open_closed : ℕ → ZnsFtl → Status × ZnsFtl
unfolding acquire_zone_resource change_zone_state
open_closed zid z =
    let (ok, t) = acquire_zone_resource open_zone z in
    if ok then (success, change_zone_state zid opened_expl t) else (no_open_zone, t)

-- An empty zone that is to have a random write area takes that resource.
unfoldable pub take_zrwa : ℕ → ZnsFtl → ZnsFtl
unfolding acquire_zone_resource
take_zrwa zid z =
    let (_, t) = acquire_zone_resource zrwa_zone z in
    set_desc zid (record (t.zone_descs zid) { zrwav = true }) t

unfoldable pub open_empty : ℕ → Bool → ZnsFtl → Status × ZnsFtl
unfolding is_zone_resource_full acquire_zone_resource open_closed take_zrwa
open_empty zid zrwa z =
    if is_zone_resource_full z active_zone
    then (no_active_zone, z)
    else if is_zone_resource_full z open_zone
    then (no_open_zone, z)
    else if zrwa && is_zone_resource_full z zrwa_zone
    then (zrwa_rsrc_unavail, z)
    else let t = if zrwa then take_zrwa zid z else z in
      let (_, u) = acquire_zone_resource active_zone t in open_closed zid u

-- The `switch` of `__zmgmt_send_open_zone`.
unfoldable pub open_from : ZoneState → ℕ → Bool → ZnsFtl → Status × ZnsFtl
unfolding open_empty open_closed
open_from empty zid zrwa z = open_empty zid zrwa z
open_from closed zid zrwa z = open_closed zid z
open_from opened_impl zid zrwa z = (success, change_zone_state zid opened_expl z)
open_from opened_expl zid zrwa z = (success, z)
open_from _ zid zrwa z = (invalid_transition, z)

unfoldable pub zmgmt_send_open_zone : ℕ → Bool → ZnsFtl → Status × ZnsFtl
unfolding open_from
zmgmt_send_open_zone zid zrwa z = open_from (z.zone_descs zid).state zid zrwa z

-- `__reset_zone`: the contents are cleared.
unfoldable pub reset_zone : ℕ → ZnsFtl → ZnsFtl
unfolding buffer_refill
reset_zone zid z =
    let d = z.zone_descs zid in
    let t = set_desc zid (record d { wp = d.zslba; zrwav = false }) z in
    record t {
      storage = memset z.storage (zid * z.zp.zone_size) 0 z.zp.zone_size;
      zrwa_buffer =
          if z.zp.zrwa_buffer_size == 0
          then z.zrwa_buffer
          else update z.zrwa_buffer zid (buffer_refill (z.zrwa_buffer zid));
    }

unfoldable pub reset_to_empty : ℕ → ZnsFtl → Status × ZnsFtl
unfolding change_zone_state reset_zone
reset_to_empty zid z = (success, reset_zone zid (change_zone_state zid empty z))

-- The `switch` of `__zmgmt_send_reset_zone`.
unfoldable pub reset_from : ZoneState → ℕ → Bool → ZnsFtl → Status × ZnsFtl
unfolding reset_to_empty release_active release_zone_resource
reset_from opened_impl zid zrwa z =
    reset_to_empty zid (release_active zrwa (release_zone_resource open_zone z))
reset_from opened_expl zid zrwa z =
    reset_to_empty zid (release_active zrwa (release_zone_resource open_zone z))
reset_from closed zid zrwa z = reset_to_empty zid (release_active zrwa z)
reset_from full zid zrwa z = reset_to_empty zid z
reset_from empty zid zrwa z = reset_to_empty zid z
reset_from _ zid zrwa z = (invalid_transition, z)

unfoldable pub zmgmt_send_reset_zone : ℕ → ZnsFtl → Status × ZnsFtl
unfolding reset_from
zmgmt_send_reset_zone zid z = reset_from (z.zone_descs zid).state zid (z.zone_descs zid).zrwav z

-- The `switch` of `__zmgmt_send_offline_zone`.
unfoldable pub offline_from : ZoneState → ℕ → ZnsFtl → Status × ZnsFtl
unfolding change_zone_state
offline_from read_only zid z = (success, change_zone_state zid offline z)
offline_from offline zid z = (success, z)
offline_from _ zid z = (invalid_transition, z)

unfoldable pub zmgmt_send_offline_zone : ℕ → ZnsFtl → Status × ZnsFtl
unfolding offline_from
zmgmt_send_offline_zone zid z = offline_from (z.zone_descs zid).state zid z
