-- ===== src/Zns/Manage.antt =====
-- zns_mgmt_send.c: the explicit flush of a random write area, and the dispatch of the actions.
use nvmevirt_slc_cache.Common.{
  ℕ, zero, suc, ◌+◌, ◌%◌, Bool, true, false, not, ◌&&◌, Option, none, some, leb, ◌==◌,
  if◌then◌else◌, min, u64, sub64,
}
use nvmevirt_slc_cache.Zns.State.{
  ZoneState, opened_impl, opened_expl, closed, full, open_zone, Status, success, invalid_field,
  invalid_zone_operation, ZnsFtl,
}
use nvmevirt_slc_cache.Zns.Zones.{
  set_desc, release_zone_resource, change_zone_state, lba_to_zone, zone_to_slba,
}
use nvmevirt_slc_cache.Zns.Send.{
  release_active, zmgmt_send_close_zone, zmgmt_send_finish_zone, zmgmt_send_open_zone,
  zmgmt_send_reset_zone, zmgmt_send_offline_zone,
}

-- A flush up to the end of the zone makes it full. A zone that is not closed holds an open resource.
unfoldable pub fill_flushed : Bool → ℕ → ZnsFtl → ZnsFtl
unfolding release_zone_resource release_active change_zone_state
fill_flushed is_open zid z =
    let t = if is_open then release_zone_resource open_zone z else z in
    change_zone_state zid full (release_active true t)

-- The write pointer moves past the flushed blocks.
unfoldable pub flush_to : Bool → ℕ → ℕ → ZnsFtl → Status × ZnsFtl
unfolding fill_flushed zone_to_slba
flush_to is_open zid slba z =
    let d = z.zone_descs zid in
    let wp = u64 (slba + 1) in
    let t = set_desc zid (record d { wp = wp }) z in
    (
      success,
      if wp == u64 (zone_to_slba z zid + d.zone_capacity) then fill_flushed is_open zid t else t,
    )

-- The `switch` of `__zmgmt_send_flush_explicit_zrwa`.
unfoldable pub flush_from : ZoneState → ℕ → ℕ → ZnsFtl → Status × ZnsFtl
unfolding flush_to
flush_from opened_expl zid slba z = flush_to true zid slba z
flush_from opened_impl zid slba z = flush_to true zid slba z
flush_from closed zid slba z = flush_to false zid slba z
flush_from _ zid slba z = (invalid_zone_operation, z)

-- The last block of the random write area of a zone.
unfoldable pub zrwa_end : ℕ → ZnsFtl → ℕ
unfolding zone_to_slba
zrwa_end zid z =
    min (sub64 (u64 ((z.zone_descs zid).wp + z.zp.lbas_per_zrwa)) 1)
      (sub64 (u64 (zone_to_slba z zid + (z.zone_descs zid).zone_capacity)) 1)

-- `none` stands for a division by zero.
unfoldable pub zmgmt_send_flush_explicit_zrwa : ℕ → ZnsFtl → Option (Status × ZnsFtl)
unfolding lba_to_zone zrwa_end flush_from
zmgmt_send_flush_explicit_zrwa slba z =
    let zid = lba_to_zone z slba in
    let d = z.zone_descs zid in
    let nr_lbas_flush = u64 (sub64 slba d.wp + 1) in
    if not d.zrwav
    then some (invalid_zone_operation, z)
    else if not (leb d.wp slba && leb slba (zrwa_end zid z))
    then some (invalid_zone_operation, z)
    else if z.zp.lbas_per_zrwafg == 0
    then none
    else if not (nr_lbas_flush % z.zp.lbas_per_zrwafg == 0)
    then some (invalid_field, z)
    else some (flush_from d.state zid slba z)

-- `enum zone_send_action`, and any other number, for which the function sets no status.
pub data ZoneSendAction : Type 0 where
  close_zone finish_zone open_zone_action reset_zone_action offline_zone : ZoneSendAction
  set_zone_desc_ext flush_expl_zrwa : ZoneSendAction
  other_action : ℕ → ZoneSendAction

-- A status that is set, with the state.
abbrev pub with_status : Status × ZnsFtl → Option (Option Status × ZnsFtl)
with_status (st, z) = some (some st, z)

-- `__zmgmt_send`; the status is `none` where the variable stays uninitialised.
unfoldable pub zmgmt_send : ZoneSendAction → ℕ → Bool → ZnsFtl → Option (Option Status × ZnsFtl)
unfolding lba_to_zone zmgmt_send_close_zone zmgmt_send_finish_zone zmgmt_send_open_zone
    zmgmt_send_reset_zone zmgmt_send_offline_zone zmgmt_send_flush_explicit_zrwa
zmgmt_send close_zone slba option z = with_status (zmgmt_send_close_zone (lba_to_zone z slba) z)
zmgmt_send finish_zone slba option z = with_status (zmgmt_send_finish_zone (lba_to_zone z slba) z)
zmgmt_send open_zone_action slba option z =
    with_status (zmgmt_send_open_zone (lba_to_zone z slba) option z)
zmgmt_send reset_zone_action slba option z =
    with_status (zmgmt_send_reset_zone (lba_to_zone z slba) z)
zmgmt_send offline_zone slba option z = with_status (zmgmt_send_offline_zone (lba_to_zone z slba) z)
zmgmt_send flush_expl_zrwa slba option z = elim (zmgmt_send_flush_explicit_zrwa slba z) [
  | none ↦ none
  | some r ↦ with_status r
]
zmgmt_send set_zone_desc_ext slba option z = some (none, z)
zmgmt_send (other_action n) slba option z = some (none, z)

-- `struct nvme_zone_mgmt_send` as far as it is read.
pub record MgmtSend : Type 0 where
  pub slba : ℕ
  pub zsa : ZoneSendAction
  pub select_all : Bool
  pub zsaso : Bool

-- The loop over all zones, the first `n` of them; the statuses are dropped.
unfoldable pub send_to_all : ℕ → ZoneSendAction → Bool → ZnsFtl → Option ZnsFtl
unfolding zmgmt_send zone_to_slba
send_to_all zero action option z = some z
send_to_all (suc n) action option z = elim (send_to_all n action option z) [
  | none ↦ none
  | some t ↦ elim (zmgmt_send action (zone_to_slba t n) option t) [
    | none ↦ none
    | some (_, u) ↦ some u
  ]
]

unfoldable pub zns_zmgmt_send : MgmtSend → ZnsFtl → Option (Option Status × ZnsFtl)
unfolding send_to_all zmgmt_send
zns_zmgmt_send cmd z =
    if cmd.select_all
    then elim (send_to_all z.zp.nr_zones cmd.zsa cmd.zsaso z) [
      | none ↦ none
      | some t ↦ some (some success, t)
    ]
    else zmgmt_send cmd.zsa cmd.slba cmd.zsaso z
