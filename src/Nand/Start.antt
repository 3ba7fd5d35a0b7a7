-- ===== src/Nand/Start.antt =====
-- `ssd_init` and what it calls. The arrays are allocated whole and every entry is set alike, so an
-- entry is given as a function of its index; entries past the count are never used.
use nvmevirt_slc_cache.Common.{ℕ, ◌+◌, ◌*◌, ◌/◌, false, [], ltb, if◌then◌else◌, u32, kb}
use nvmevirt_slc_cache.Channel.{ChannelModel, chmodel_init, unit_xfer_size}
use nvmevirt_slc_cache.Params.{SsdParams}
use nvmevirt_slc_cache.Nand.State.{
  pg_free, NandPage, NandBlock, NandPlane, NandLun, SsdChannel, Buffer, Ssd,
}

unfoldable pub buffer_init : ℕ → Buffer
buffer_init size = record { size = size; remaining = size }

unfoldable pub ssd_init_nand_page : SsdParams → NandPage
ssd_init_nand_page spp = record { sec = λ _. pg_free; nsecs = spp.secs_per_pg; status = pg_free }

-- `ssd_init_nand_blk` and `ssd_init_nand_blk_slc` differ in the number of pages.
unfoldable pub init_blk_of : SsdParams → ℕ → NandBlock
unfolding ssd_init_nand_page
init_blk_of spp npgs = record {
  pg = λ _. ssd_init_nand_page spp;
  npgs = npgs;
  ipc = 0;
  vpc = 0;
  erase_cnt = 0;
  wp = 0;
}

unfoldable pub ssd_init_nand_blk : SsdParams → NandBlock
unfolding init_blk_of
ssd_init_nand_blk spp = init_blk_of spp spp.pgs_per_blk

unfoldable pub ssd_init_nand_blk_slc : SsdParams → NandBlock
unfolding init_blk_of
ssd_init_nand_blk_slc spp = init_blk_of spp spp.pgs_per_blk_slc

-- The first `tt_lines_slc` blocks of a plane are the SLC cache.
unfoldable pub ssd_init_nand_plane : SsdParams → NandPlane
unfolding ssd_init_nand_blk ssd_init_nand_blk_slc
ssd_init_nand_plane spp = record {
  blk = λ i. if ltb i spp.tt_lines_slc then ssd_init_nand_blk_slc spp else ssd_init_nand_blk spp;
  nblks = spp.blks_per_pl;
}

-- `gc_endtime` is not written here; it is only ever written by the garbage collector.
unfoldable pub ssd_init_nand_lun : SsdParams → NandLun
unfolding ssd_init_nand_plane
ssd_init_nand_lun spp = record {
  pl = λ _. ssd_init_nand_plane spp;
  npls = spp.pls_per_lun;
  next_lun_avail_time = 0;
  busy = false;
  gc_endtime = 0;
}

-- The channel model gets the firmware overhead on top.
unfoldable pub ssd_init_ch : SsdParams → SsdChannel
unfolding ssd_init_nand_lun chmodel_init
ssd_init_ch spp =
    let model = chmodel_init spp.ch_bandwidth in
    record {
      lun = λ _. ssd_init_nand_lun spp;
      nluns = spp.luns_per_ch;
      perf_model = record model {
        xfer_lat = u32 (model.xfer_lat + spp.fw_ch_xfer_lat * unit_xfer_size / kb 4);
      };
    }

unfoldable pub ssd_init_pcie : SsdParams → ChannelModel
unfolding chmodel_init
ssd_init_pcie spp = chmodel_init spp.pcie_bandwidth

unfoldable pub ssd_init : SsdParams → Ssd
unfolding ssd_init_ch ssd_init_pcie buffer_init
ssd_init spp = record {
  sp = spp;
  ch = λ _. ssd_init_ch spp;
  pcie = ssd_init_pcie spp;
  write_buffer = buffer_init spp.write_buffer_size;
  reads = 0;
  scheduled = [];
}
