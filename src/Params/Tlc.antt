-- ===== src/Params/Tlc.antt =====
-- The values that `ssd_init_params` of ssd.c sets.
use nvmevirt_slc_cache.Common.{ℕ, ◌*◌, ◌/◌, ◌^◌, div_round_up}
use nvmevirt_slc_cache.Params.Constants.{Config}
use nvmevirt_slc_cache.Params.Fields.{SsdParams}
use nvmevirt_slc_cache.Params.Shape.{rd_lat, Shape}

-- What `ssd_init_params` writes: the fields of the SLC cache keep what they held.
unfoldable pub tlc_params : Config → SsdParams → Shape → ℕ → SsdParams
tlc_params cfg spp shape nparts =
    let secsz = 2 ^ cfg.lba_bits in
    let secs_per_pg = 4096 / secsz in
    let pgsz = secsz * secs_per_pg in
    let nchs = cfg.nand_channels / nparts in
    let pls = cfg.plns_per_lun in
    let luns = cfg.luns_per_nand_ch in
    let oneshot = cfg.oneshot_page_size / pgsz in
    let oneshots = div_round_up shape.blk_size cfg.oneshot_page_size in
    let pgs_per_blk = oneshot * oneshots in
    let secs_per_blk = secs_per_pg * pgs_per_blk in
    let secs_per_pl = secs_per_blk * shape.blks_per_pl in
    let secs_per_lun = secs_per_pl * pls in
    let secs_per_ch = secs_per_lun * luns in
    let pgs_per_pl = pgs_per_blk * shape.blks_per_pl in
    let pgs_per_lun = pgs_per_pl * pls in
    let pgs_per_ch = pgs_per_lun * luns in
    let blks_per_lun = shape.blks_per_pl * pls in
    let tt_luns = luns * nchs in
    record spp {
      secsz = secsz;
      secs_per_pg = secs_per_pg;
      pgsz = pgsz;
      nchs = nchs;
      pls_per_lun = pls;
      luns_per_ch = luns;
      cell_mode = cfg.cell_mode;
      blks_per_pl = shape.blks_per_pl;
      pgs_per_oneshotpg = oneshot;
      oneshotpgs_per_blk = oneshots;
      pgs_per_flashpg = cfg.flash_page_size / pgsz;
      flashpgs_per_blk = cfg.oneshot_page_size / cfg.flash_page_size * oneshots;
      pgs_per_blk = pgs_per_blk;
      write_unit_size = cfg.write_unit_size;
      pg_4kb_rd_lat =
          rd_lat cfg.nand_4kb_read_latency_lsb cfg.nand_4kb_read_latency_msb
            cfg.nand_4kb_read_latency_csb;
      pg_rd_lat =
          rd_lat cfg.nand_read_latency_lsb cfg.nand_read_latency_msb cfg.nand_read_latency_csb;
      pg_wr_lat = cfg.nand_prog_latency;
      blk_er_lat = cfg.nand_erase_latency;
      max_ch_xfer_size = cfg.max_ch_xfer_size;
      fw_4kb_rd_lat = cfg.fw_4kb_read_latency;
      fw_rd_lat = cfg.fw_read_latency;
      fw_ch_xfer_lat = cfg.fw_ch_xfer_latency;
      fw_wbuf_lat0 = cfg.fw_wbuf_latency0;
      fw_wbuf_lat1 = cfg.fw_wbuf_latency1;
      ch_bandwidth = cfg.nand_channel_bandwidth;
      pcie_bandwidth = cfg.pcie_bandwidth;
      write_buffer_size = cfg.global_wb_size;
      write_early_completion = cfg.write_early_completion;
      secs_per_blk = secs_per_blk;
      secs_per_pl = secs_per_pl;
      secs_per_lun = secs_per_lun;
      secs_per_ch = secs_per_ch;
      tt_secs = secs_per_ch * nchs;
      pgs_per_pl = pgs_per_pl;
      pgs_per_lun = pgs_per_lun;
      pgs_per_ch = pgs_per_ch;
      tt_pgs = pgs_per_ch * nchs;
      blks_per_lun = blks_per_lun;
      blks_per_ch = blks_per_lun * luns;
      tt_blks = blks_per_lun * luns * nchs;
      pls_per_ch = pls * luns;
      tt_pls = pls * luns * nchs;
      tt_luns = tt_luns;
      blks_per_line = tt_luns;
      pgs_per_line = tt_luns * pgs_per_blk;
      secs_per_line = tt_luns * pgs_per_blk * secs_per_pg;
      tt_lines = blks_per_lun;
    }
