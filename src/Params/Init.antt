-- ===== src/Params/Init.antt =====
-- `ssd_init_params` and `ssd_init_params_slc` of ssd.c.
use nvmevirt_slc_cache.Common.{ℕ, ◌/◌, ◌%◌, ◌&&◌, Option, none, some, ◌==◌, if◌then◌else◌}
use nvmevirt_slc_cache.Params.Constants.{Config}
use nvmevirt_slc_cache.Params.Fields.{SsdParams}
use nvmevirt_slc_cache.Params.Shape.{Shape, block_shape, page_sizes_divide}
use nvmevirt_slc_cache.Params.Tlc.{tlc_params}
use nvmevirt_slc_cache.Params.Slc.{slc_params}

unfoldable pub tlc_from_shape : Config → SsdParams → ℕ → Option Shape → Option SsdParams
tlc_from_shape cfg spp nparts none = none
tlc_from_shape cfg spp nparts (some shape) =
    if page_sizes_divide cfg then some (tlc_params cfg spp shape nparts) else none

-- The initialiser for the SLC cache ends with the assertion `BLKS_PER_PLN == spp->tt_lines`.
unfoldable pub slc_from_shape : Config → SsdParams → ℕ → Option Shape → Option SsdParams
slc_from_shape cfg spp nparts none = none
slc_from_shape cfg spp nparts (some shape) =
    if page_sizes_divide cfg && cfg.blks_per_pln == shape.blks_per_pl
    then some (slc_params cfg spp shape nparts)
    else none

-- `spp` is what the caller's variable holds before the call.
unfoldable pub ssd_init_params : Config → SsdParams → ℕ → ℕ → Option SsdParams
unfolding block_shape page_sizes_divide tlc_params tlc_from_shape
ssd_init_params cfg spp capacity nparts =
    if cfg.nand_channels % nparts == 0
    then tlc_from_shape cfg spp nparts
        (block_shape cfg (capacity / nparts) (cfg.nand_channels / nparts))
    else none

unfoldable pub ssd_init_params_slc : Config → SsdParams → ℕ → ℕ → Option SsdParams
ssd_init_params_slc cfg spp capacity nparts =
    if cfg.nand_channels % nparts == 0
    then slc_from_shape cfg spp nparts
        (block_shape cfg (capacity / nparts) (cfg.nand_channels / nparts))
    else none
