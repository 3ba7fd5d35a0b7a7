-- ===== src/Params/Fields.antt =====
-- `struct ssdparams` of ssd.h. The latency arrays are functions of the cell type (LSB 0, MSB 1,
-- CSB 2). The fields are plain numbers: parameters whose products exceed the widths of their C
-- types are outside the model.
use nvmevirt_slc_cache.Common.{ℕ, Bool}

pub record SsdParams : Type 0 where
  pub secsz : ℕ
  pub secs_per_pg : ℕ
  pub pgsz : ℕ
  pub pgs_per_flashpg : ℕ
  pub flashpgs_per_blk : ℕ
  pub pgs_per_oneshotpg : ℕ
  pub oneshotpgs_per_blk : ℕ
  pub pgs_per_blk : ℕ
  pub blks_per_pl : ℕ
  pub pls_per_lun : ℕ
  pub luns_per_ch : ℕ
  pub nchs : ℕ
  pub cell_mode : ℕ
  pub write_unit_size : ℕ
  pub write_early_completion : Bool
  pub pg_4kb_rd_lat : ℕ → ℕ
  pub pg_rd_lat : ℕ → ℕ
  pub pg_wr_lat : ℕ
  pub blk_er_lat : ℕ
  pub max_ch_xfer_size : ℕ
  pub fw_4kb_rd_lat : ℕ
  pub fw_rd_lat : ℕ
  pub fw_wbuf_lat0 : ℕ
  pub fw_wbuf_lat1 : ℕ
  pub fw_ch_xfer_lat : ℕ
  pub ch_bandwidth : ℕ
  pub pcie_bandwidth : ℕ
  pub secs_per_blk : ℕ
  pub secs_per_pl : ℕ
  pub secs_per_lun : ℕ
  pub secs_per_ch : ℕ
  pub tt_secs : ℕ
  pub pgs_per_pl : ℕ
  pub pgs_per_lun : ℕ
  pub pgs_per_ch : ℕ
  pub tt_pgs : ℕ
  pub blks_per_lun : ℕ
  pub blks_per_ch : ℕ
  pub tt_blks : ℕ
  pub secs_per_line : ℕ
  pub pgs_per_line : ℕ
  pub blks_per_line : ℕ
  pub tt_lines : ℕ
  pub pls_per_ch : ℕ
  pub tt_pls : ℕ
  pub tt_luns : ℕ
  pub pg_4kb_rd_lat_slc : ℕ
  pub pg_rd_lat_slc : ℕ
  pub pg_wr_lat_slc : ℕ
  pub blk_er_lat_slc : ℕ
  pub flashpgs_per_blk_slc : ℕ
  pub oneshotpgs_per_blk_slc : ℕ
  pub pgs_per_oneshotpg_slc : ℕ
  pub pgs_per_blk_slc : ℕ
  pub secs_per_blk_slc : ℕ
  pub secs_per_line_slc : ℕ
  pub pgs_per_line_slc : ℕ
  pub tt_lines_tlc : ℕ
  pub tt_lines_slc : ℕ
  pub write_buffer_size : ℕ
