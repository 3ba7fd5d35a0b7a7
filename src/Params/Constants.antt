-- ===== src/Params/Constants.antt =====
-- The constants of ssd_config.h. The build selects one block of them (`BASE_SSD`); the record holds
-- what such a block defines, and `samsung_970pro` is the block that Kbuild selects.
use nvmevirt_slc_cache.Common.{ℕ, ◌*◌, ◌+◌, ◌-◌, Bool, true, kb}

pub record Config : Type 0 where
  pub enable_slc_cache : Bool
  pub lba_bits : ℕ
  pub cell_mode : ℕ
  pub ssd_partitions : ℕ
  pub nand_channels : ℕ
  pub luns_per_nand_ch : ℕ
  pub plns_per_lun : ℕ
  pub flash_page_size : ℕ
  pub oneshot_page_size : ℕ
  pub blks_per_pln : ℕ
  pub blk_size : ℕ
  pub max_ch_xfer_size : ℕ
  pub write_unit_size : ℕ
  pub nand_channel_bandwidth : ℕ
  pub pcie_bandwidth : ℕ
  pub nand_4kb_read_latency_lsb : ℕ
  pub nand_4kb_read_latency_msb : ℕ
  pub nand_4kb_read_latency_csb : ℕ
  pub nand_read_latency_lsb : ℕ
  pub nand_read_latency_msb : ℕ
  pub nand_read_latency_csb : ℕ
  pub nand_prog_latency : ℕ
  pub nand_erase_latency : ℕ
  pub slc_portion : ℕ
  pub slc_oneshot_page_size : ℕ
  pub nand_4kb_read_latency_slc : ℕ
  pub nand_read_latency_slc : ℕ
  pub nand_prog_latency_slc : ℕ
  pub nand_erase_latency_slc : ℕ
  pub fw_4kb_read_latency : ℕ
  pub fw_read_latency : ℕ
  pub fw_wbuf_latency0 : ℕ
  pub fw_wbuf_latency1 : ℕ
  pub fw_ch_xfer_latency : ℕ
  pub global_wb_size : ℕ
  pub write_early_completion : Bool
  -- `(int)((1 + OP_AREA_PERCENT) * 100)`, which the source computes in floating point.
  pub pba_pcent : ℕ

abbrev pub samsung_970pro : Config
samsung_970pro = record {
  enable_slc_cache = true;
  lba_bits = 9;
  cell_mode = 3;
  ssd_partitions = 4;
  nand_channels = 4;
  luns_per_nand_ch = 4;
  plns_per_lun = 1;
  flash_page_size = kb 16;
  oneshot_page_size = kb 16 * 3;
  blks_per_pln = 1024;
  blk_size = 0;
  max_ch_xfer_size = kb 16;
  write_unit_size = 512;
  nand_channel_bandwidth = 800;
  pcie_bandwidth = 3360;
  nand_4kb_read_latency_lsb = 35760 - 6000;
  nand_4kb_read_latency_msb = 35760 + 6000;
  nand_4kb_read_latency_csb = 35760;
  nand_read_latency_lsb = 36013 - 6000;
  nand_read_latency_msb = 36013 + 6000;
  nand_read_latency_csb = 36013;
  nand_prog_latency = 185000;
  nand_erase_latency = 0;
  slc_portion = 10;
  slc_oneshot_page_size = kb 16;
  nand_4kb_read_latency_slc = 16254;
  nand_read_latency_slc = 16369;
  nand_prog_latency_slc = 40547;
  nand_erase_latency_slc = 0;
  fw_4kb_read_latency = 21500;
  fw_read_latency = 30490;
  fw_wbuf_latency0 = 4000;
  fw_wbuf_latency1 = 460;
  fw_ch_xfer_latency = 0;
  global_wb_size = 4 * 4 * (kb 16 * 3) * 2;
  write_early_completion = true;
  pba_pcent = 107;
}
