-- ===== src/Params/Shape.antt =====
-- The shape of a block, and the checks on the page sizes, in `ssd_init_params` of ssd.c.
use nvmevirt_slc_cache.Common.{
  ℕ, ◌*◌, ◌/◌, ◌%◌, ◌^◌, Bool, ◌&&◌, Option, none, some, ltb, ◌==◌, if◌then◌else◌, div_round_up,
}
use nvmevirt_slc_cache.Params.Constants.{Config}

-- The latency arrays, indexed by the cell type.
abbrev pub rd_lat : ℕ → ℕ → ℕ → ℕ → ℕ
rd_lat lsb msb csb cell = if cell == 0 then lsb else if cell == 1 then msb else csb

-- `blk_size` and `blks_per_pl`, one of which the configuration gives.
pub record Shape : Type 0 where
  pub blk_size : ℕ
  pub blks_per_pl : ℕ

unfoldable pub block_shape : Config → ℕ → ℕ → Option Shape
block_shape cfg capacity nchs =
    let width = cfg.plns_per_lun * cfg.luns_per_nand_ch * nchs in
    if ltb 0 cfg.blks_per_pln
    then some (record {
      blk_size = div_round_up capacity (cfg.blks_per_pln * width);
      blks_per_pl = cfg.blks_per_pln;
    })
    else if ltb 0 cfg.blk_size
    then some (record {
      blk_size = cfg.blk_size;
      blks_per_pl = div_round_up capacity (cfg.blk_size * width);
    })
    else none

-- The assertions on the page sizes.
unfoldable pub page_sizes_divide : Config → Bool
page_sizes_divide cfg =
    let pgsz = 2 ^ cfg.lba_bits * (4096 / 2 ^ cfg.lba_bits) in
    cfg.oneshot_page_size % pgsz == 0
    && (cfg.flash_page_size % pgsz == 0 && cfg.oneshot_page_size % cfg.flash_page_size == 0)
