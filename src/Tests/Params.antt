-- ===== src/Tests/Params.antt =====
-- A small drive: two channels of one die, with two SLC blocks and two TLC blocks in each plane.
use nvmevirt_slc_cache.Common.{◌≡◌, refl, true, false, some, kb}
use nvmevirt_slc_cache.Params.{Config, samsung_970pro, SsdParams}
use nvmevirt_slc_cache.Params.Shape.{rd_lat, block_shape, page_sizes_divide}
use nvmevirt_slc_cache.Params.Slc.{slc_params}
use nvmevirt_slc_cache.Params.Init.{slc_from_shape, ssd_init_params_slc}

abbrev pub small : Config
small = record samsung_970pro {
  ssd_partitions = 1;
  nand_channels = 2;
  luns_per_nand_ch = 1;
  flash_page_size = kb 4;
  oneshot_page_size = kb 12;
  slc_oneshot_page_size = kb 4;
  blks_per_pln = 4;
  slc_portion = 50;
}

-- Memory before it is set.
abbrev pub zeros : SsdParams
zeros = record {
  secsz = 0;
  secs_per_pg = 0;
  pgsz = 0;
  pgs_per_flashpg = 0;
  flashpgs_per_blk = 0;
  pgs_per_oneshotpg = 0;
  oneshotpgs_per_blk = 0;
  pgs_per_blk = 0;
  blks_per_pl = 0;
  pls_per_lun = 0;
  luns_per_ch = 0;
  nchs = 0;
  cell_mode = 0;
  write_unit_size = 0;
  write_early_completion = false;
  pg_4kb_rd_lat = λ _. 0;
  pg_rd_lat = λ _. 0;
  pg_wr_lat = 0;
  blk_er_lat = 0;
  max_ch_xfer_size = 0;
  fw_4kb_rd_lat = 0;
  fw_rd_lat = 0;
  fw_wbuf_lat0 = 0;
  fw_wbuf_lat1 = 0;
  fw_ch_xfer_lat = 0;
  ch_bandwidth = 0;
  pcie_bandwidth = 0;
  secs_per_blk = 0;
  secs_per_pl = 0;
  secs_per_lun = 0;
  secs_per_ch = 0;
  tt_secs = 0;
  pgs_per_pl = 0;
  pgs_per_lun = 0;
  pgs_per_ch = 0;
  tt_pgs = 0;
  blks_per_lun = 0;
  blks_per_ch = 0;
  tt_blks = 0;
  secs_per_line = 0;
  pgs_per_line = 0;
  blks_per_line = 0;
  tt_lines = 0;
  pls_per_ch = 0;
  tt_pls = 0;
  tt_luns = 0;
  pg_4kb_rd_lat_slc = 0;
  pg_rd_lat_slc = 0;
  pg_wr_lat_slc = 0;
  blk_er_lat_slc = 0;
  flashpgs_per_blk_slc = 0;
  oneshotpgs_per_blk_slc = 0;
  pgs_per_oneshotpg_slc = 0;
  pgs_per_blk_slc = 0;
  secs_per_blk_slc = 0;
  secs_per_line_slc = 0;
  pgs_per_line_slc = 0;
  tt_lines_tlc = 0;
  tt_lines_slc = 0;
  write_buffer_size = 0;
}

abbrev pub params : SsdParams
params = record {
  secsz = 512;
  secs_per_pg = 8;
  pgsz = 4096;
  pgs_per_flashpg = 1;
  flashpgs_per_blk = 6;
  pgs_per_oneshotpg = 3;
  oneshotpgs_per_blk = 2;
  pgs_per_blk = 6;
  blks_per_pl = 4;
  pls_per_lun = 1;
  luns_per_ch = 1;
  nchs = 2;
  cell_mode = 3;
  write_unit_size = 512;
  write_early_completion = true;
  pg_4kb_rd_lat = rd_lat 29760 41760 35760;
  pg_rd_lat = rd_lat 30013 42013 36013;
  pg_wr_lat = 185000;
  blk_er_lat = 0;
  max_ch_xfer_size = 16384;
  fw_4kb_rd_lat = 21500;
  fw_rd_lat = 30490;
  fw_wbuf_lat0 = 4000;
  fw_wbuf_lat1 = 460;
  fw_ch_xfer_lat = 0;
  ch_bandwidth = 800;
  pcie_bandwidth = 3360;
  secs_per_blk = 48;
  secs_per_pl = 128;
  secs_per_lun = 128;
  secs_per_ch = 128;
  tt_secs = 256;
  pgs_per_pl = 16;
  pgs_per_lun = 16;
  pgs_per_ch = 16;
  tt_pgs = 32;
  blks_per_lun = 4;
  blks_per_ch = 4;
  tt_blks = 8;
  secs_per_line = 96;
  pgs_per_line = 12;
  blks_per_line = 2;
  tt_lines = 4;
  pls_per_ch = 1;
  tt_pls = 2;
  tt_luns = 2;
  pg_4kb_rd_lat_slc = 16254;
  pg_rd_lat_slc = 16369;
  pg_wr_lat_slc = 40547;
  blk_er_lat_slc = 0;
  flashpgs_per_blk_slc = 2;
  oneshotpgs_per_blk_slc = 2;
  pgs_per_oneshotpg_slc = 1;
  pgs_per_blk_slc = 2;
  secs_per_blk_slc = 16;
  secs_per_line_slc = 32;
  pgs_per_line_slc = 4;
  tt_lines_tlc = 2;
  tt_lines_slc = 2;
  write_buffer_size = 1572864;
}

-- `ssd_init_params_slc` for a capacity of eight TLC blocks.
ssd_init_params_slc-small : ssd_init_params_slc small zeros (kb 192) 1 ≡ some params
unfolding ssd_init_params_slc slc_from_shape slc_params block_shape page_sizes_divide
ssd_init_params_slc-small = refl
