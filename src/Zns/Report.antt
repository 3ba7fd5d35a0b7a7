-- ===== src/Zns/Report.antt =====
-- zns_mgmt_recv.c: the report of zones, and its transfer to the host.
use nvmevirt_slc_cache.Common.{
  ℕ, ◌+◌, ◌*◌, ◌/◌, Bool, not, ◌&&◌, Option, none, some, List, [], leb, ltb, ◌==◌, if◌then◌else◌,
  u32, sub64,
}
use nvmevirt_slc_cache.Prp.{Copy, Prps, transfer}
use nvmevirt_slc_cache.Zns.State.{Status, success, invalid_field, ZoneDescriptor, ZnsFtl}
use nvmevirt_slc_cache.Zns.Zones.{lba_to_zone}

-- `struct nvme_zone_mgmt_recv` as far as it is read. `partial` is the bit `zra_specific_features`.
pub record MgmtRecv : Type 0 where
  pub slba : ℕ
  pub nr_dw : ℕ
  pub zra : ℕ
  pub zra_specific_field : ℕ
  pub partial : Bool
  pub prp1 : ℕ
  pub prp2 : ℕ

-- `struct zone_report`: the first `nr_zones` of the descriptors are written.
pub record ZoneReport : Type 0 where
  pub nr_zones : ℕ
  pub zd : ℕ → ZoneDescriptor

-- The size of a zone descriptor.
abbrev pub descriptor_size : ℕ
descriptor_size = 64

-- The bytes that the host takes; `nr_dw` counts from 0, in 32 bits.
abbrev pub recv_length : MgmtRecv → ℕ
recv_length cmd = u32 (cmd.nr_dw + 1) * 4

-- `__fill_zone_report`; `old` is what the report buffer holds.
unfoldable pub fill_zone_report : MgmtRecv → ZoneReport → ZnsFtl → ZoneReport
unfolding lba_to_zone
fill_zone_report cmd old z =
    let start_zid = lba_to_zone z cmd.slba in
    let left = sub64 z.zp.nr_zones start_zid in
    let wanted = if cmd.partial then sub64 (recv_length cmd / descriptor_size) 1 else left in
    let n = if ltb left wanted then left else wanted in
    record { nr_zones = n; zd = λ i. if ltb i n then z.zone_descs (start_zid + i) else old.zd i }

-- `__check_zmgmt_rcv_option_supported`
unfoldable pub check_zmgmt_rcv_option_supported : MgmtRecv → ZnsFtl → Bool
unfolding lba_to_zone
check_zmgmt_rcv_option_supported cmd z =
    not (leb z.zp.nr_zones (lba_to_zone z cmd.slba))
    && (cmd.zra == 0 && cmd.zra_specific_field == 0)

-- `zns_zmgmt_recv`: the status, the report buffer and the copies to the host, which reads its lists
-- at the address that prp2 gives. The copies stay inside the report while it is long enough.
pub record Received : Type 0 where
  pub status : Status
  pub report : ZoneReport
  pub copies : List Copy

-- The pages that the command gives.
abbrev pub report_prps : (ℕ → ℕ → ℕ) → MgmtRecv → Prps
report_prps entry cmd = record {
  prp1 = cmd.prp1;
  prp2 = cmd.prp2;
  entry = entry;
  list_base = λ p. p;
}

unfoldable pub zns_zmgmt_recv : (ℕ → ℕ → ℕ) → MgmtRecv → ZoneReport → ZnsFtl → Option Received
unfolding check_zmgmt_rcv_option_supported fill_zone_report transfer
zns_zmgmt_recv entry cmd old z =
    let r = fill_zone_report cmd old z in
    if check_zmgmt_rcv_option_supported cmd z
    then elim (transfer (report_prps entry cmd) 0 (recv_length cmd)) [
      | none ↦ none
      | some cs ↦ some (record { status = success; report = r; copies = cs })
    ]
    else some (record { status = invalid_field; report = old; copies = [] })
