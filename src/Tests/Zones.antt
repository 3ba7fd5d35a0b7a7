-- ===== src/Tests/Zones.antt =====
-- Commands to a namespace of four zones on the small drive.
use nvmevirt_slc_cache.Common.{
  ◌+◌, ◌*◌, ◌^◌, ◌≤◌, ◌<◌, inl, refl, arith, false, if◌then◌else◌, u64, kb, Returns,
}
use nvmevirt_slc_cache.Nand.{ssd_init, buffer_init}
use nvmevirt_slc_cache.Zns.{ZnsParams, ZnsFtl}
use nvmevirt_slc_cache.Zns.{lba_to_lpn, lba_to_zone}
use nvmevirt_slc_cache.Zns.Manage.{open_zone_action, MgmtSend, zns_zmgmt_send}
use nvmevirt_slc_cache.Zns.Access.{ZoneRequest, nr_lbas, write_buffer_of}
use nvmevirt_slc_cache.Zns.Write.{zns_write_plain}
use nvmevirt_slc_cache.Zns.Read.{zns_read}
use nvmevirt_slc_cache.Zns.Start.{zns_init_ftl}
use nvmevirt_slc_cache.Zns.Host.{ZonedNamespace, cmd_zone_mgmt_send, zns_proc_nvme_io_cmd}
use nvmevirt_slc_cache.Zns.Initial.{Idle, zns_init_ftl-Idle}
use nvmevirt_slc_cache.Zns.Sent.{Sent, Only}
use nvmevirt_slc_cache.Zns.ManySent.{Below, zns_zmgmt_send-Sent}
use nvmevirt_slc_cache.Zns.Loops.{IsDrive}
use nvmevirt_slc_cache.Zns.Reaches.{first_page, last_page, InNamespace, ReadOut, zns_read-ReadOut}
use nvmevirt_slc_cache.Zns.Tables.{IsNamespace, buffer_at}
use nvmevirt_slc_cache.Zns.Writes.{Wrote, zns_write_plain-Wrote}
use nvmevirt_slc_cache.Zns.Commands.{Answered, zns_proc_nvme_io_cmd-IsNamespace}
use nvmevirt_slc_cache.Prp.{Prps, transfer}
use nvmevirt_slc_cache.Prp.Cover.{Covers, transfer-Covers}
use nvmevirt_slc_cache.Tests.Params.{params}
use nvmevirt_slc_cache.Tests.Instance.{machine}
use nvmevirt_slc_cache.Tests.Flash.{fresh-ModelsValid}

-- Zones of four wordlines, 96 blocks.
abbrev zone_params : ZnsParams
zone_params = record {
  nr_zones = 4;
  nr_active_zones = 4;
  nr_open_zones = 4;
  dies_per_zone = 1;
  zone_size = kb 48;
  zone_wb_size = kb 24;
  nr_zrwa_zones = 4;
  zrwafg_size = kb 4;
  zrwa_size = kb 12;
  zrwa_buffer_size = kb 24;
  lbas_per_zrwafg = 8;
  lbas_per_zrwa = 24;
}

abbrev start : ZnsFtl
start = zns_init_ftl 9 zone_params (ssd_init params) (λ _. 0)

small-IsDrive : IsDrive params
small-IsDrive = record {
  flashpg = omega arith;
  oneshotpg = omega arith;
  page = omega arith;
  chunk = omega arith;
  channels = omega arith;
  dies = refl;
  some_dies = omega arith;
  sectors = omega arith;
  sector = omega arith;
  unit = omega arith;
}

zns_init_ftl-Idle_example : Idle start
unfolding ssd_init
zns_init_ftl-Idle_example =
    zns_init_ftl-Idle 9 zone_params (ssd_init params) (λ _. 0) refl (omega arith) (omega arith)
      (omega arith) (omega arith) small-IsDrive fresh-ModelsValid

start-IsNamespace : IsNamespace start
unfolding ssd_init
start-IsNamespace =
    (zns_init_ftl-Idle 9 zone_params (ssd_init params) (λ _. 0) refl (omega arith) (omega arith)
      (omega arith) (omega arith) small-IsDrive fresh-ModelsValid).in_order

-- Zone 1 opens, or all of them.
abbrev open_one : MgmtSend
open_one = record { slba = 96; zsa = open_zone_action; zsaso = false; select_all = false }

in_zones : lba_to_zone start 96 < start.zp.nr_zones
unfolding lba_to_zone zns_init_ftl ssd_init
in_zones = omega arith

zns_zmgmt_send-Sent_example :
    Returns
      (λ r.
        Sent Unit
          (λ j. if false then Below start.zp.nr_zones j else Only (lba_to_zone start 96) j)
          start
          r.1)
      (zns_zmgmt_send open_one start)
zns_zmgmt_send-Sent_example =
    zns_zmgmt_send-Sent start start-IsNamespace.zoned start-IsNamespace.accounted open_one in_zones
      tt

abbrev namespace_of : ZnsFtl → ZonedNamespace
namespace_of z = record { ftl = z; report_buffer = record { nr_zones = 0; zd = z.zone_descs } }

zns_proc_nvme_io_cmd-IsNamespace_example :
    Returns
      (Answered (namespace_of start))
      (zns_proc_nvme_io_cmd machine (λ _ _. 0) 7 (cmd_zone_mgmt_send open_one) (namespace_of start))
zns_proc_nvme_io_cmd-IsNamespace_example =
    zns_proc_nvme_io_cmd-IsNamespace machine (λ _ _. 0) 7 (cmd_zone_mgmt_send open_one)
      (namespace_of start) start-IsNamespace (in_zones, tt)

-- A write of one wordline at the start of zone 1.
abbrev one_wordline : ZoneRequest
one_wordline = record {
  is_append = false;
  slba = 96;
  length = 23;
  fua = false;
  sq_id = 1;
  nsecs_start = 1000;
}

fits_buffer :
    u64 (nr_lbas one_wordline * 2 ^ machine.config.lba_bits)
    ≤ (buffer_at (write_buffer_of start (lba_to_zone start 96)) start).size
unfolding zns_init_ftl buffer_init ssd_init lba_to_zone
fits_buffer = omega arith

zns_write_plain-Wrote_example :
    Returns
      (Wrote (lba_to_zone start 96) (nr_lbas one_wordline) start)
      (zns_write_plain machine one_wordline start)
zns_write_plain-Wrote_example =
    zns_write_plain-Wrote start start-IsNamespace machine one_wordline in_zones (omega arith)
      fits_buffer

range : first_page one_wordline start ≤ last_page one_wordline start
unfolding lba_to_lpn zns_init_ftl ssd_init
range = omega arith

inside : InNamespace start (last_page one_wordline start)
unfolding lba_to_lpn zns_init_ftl ssd_init
inside = record { last_in = omega arith; dies = record { groups = 2; whole_groups = refl } }

zns_read-ReadOut_example :
    Returns (ReadOut one_wordline start) (zns_read machine one_wordline start)
zns_read-ReadOut_example =
    zns_read-ReadOut machine one_wordline start start-IsNamespace.zoned start-IsNamespace.drive
      start-IsNamespace.models range inside

-- Two and a half pages, from the middle of one, by a list at address 8192.
abbrev pages : Prps
pages = record {
  prp1 = 6144;
  prp2 = 8192;
  entry = λ base i. base + 4096 * (i + 1);
  list_base = λ p. p;
}

transfer-Covers_example : Returns (Covers 0 10240) (transfer pages 0 10240)
transfer-Covers_example = transfer-Covers pages 0 10240 (inl refl)
