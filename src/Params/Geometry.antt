-- ===== src/Params/Geometry.antt =====
-- What the initialisers establish about the geometry, in the form that the address arithmetic uses.
use nvmevirt_slc_cache.Common.{
  ℕ, ◌+◌, ◌*◌, ◌/◌, ◌%◌, ◌≤◌, ◌≡◌, Option, none, some, refl, subst, if-eq-some, ◌&&◌, arith, ◌==◌,
}
use mathlib.Core.Option.{some-injective}
use nvmevirt_slc_cache.Params.Constants.{Config}
use nvmevirt_slc_cache.Params.Fields.{SsdParams}
use nvmevirt_slc_cache.Params.Shape.{Shape, page_sizes_divide}
use nvmevirt_slc_cache.Params.Slc.{slc_params}
use nvmevirt_slc_cache.Params.Init.{slc_from_shape, ssd_init_params_slc}

-- The units are counted level by level: blocks of both modes make up a plane, planes a die, dies a
-- channel, channels the drive, and a line is one block of every die.
pub record IsSlcGeometry (spp : SsdParams) : Type 0 where
  pub lines_split : spp.tt_lines_slc + spp.tt_lines_tlc ≡ spp.tt_lines
  pub lines_are_blocks : spp.tt_lines ≡ spp.blks_per_pl
  pub plane :
      spp.pgs_per_pl ≡ spp.pgs_per_blk_slc * spp.tt_lines_slc + spp.pgs_per_blk * spp.tt_lines_tlc
  pub die : spp.pgs_per_lun ≡ spp.pgs_per_pl * spp.pls_per_lun
  pub channel : spp.pgs_per_ch ≡ spp.pgs_per_lun * spp.luns_per_ch
  pub drive : spp.tt_pgs ≡ spp.pgs_per_ch * spp.nchs
  pub line : spp.pgs_per_line ≡ spp.luns_per_ch * spp.nchs * spp.pgs_per_blk
  pub line_slc : spp.pgs_per_line_slc ≡ spp.luns_per_ch * spp.nchs * spp.pgs_per_blk_slc
  pub block : spp.pgs_per_blk ≡ spp.pgs_per_oneshotpg * spp.oneshotpgs_per_blk
  pub block_slc : spp.pgs_per_blk_slc ≡ spp.pgs_per_oneshotpg_slc * spp.oneshotpgs_per_blk_slc

portion-le : (lines portion : ℕ) → portion ≤ 100 → lines * portion / 100 ≤ lines
portion-le lines portion h = omega (arith, product)
  where
    product : lines * portion ≤ lines * 100
    product = grind arith

slc_params-IsSlcGeometry :
    (cfg : Config) (old : SsdParams) (shape : Shape) (nparts : ℕ)
    → cfg.slc_portion ≤ 100
    → IsSlcGeometry (slc_params cfg old shape nparts)
unfolding slc_params
slc_params-IsSlcGeometry cfg old shape nparts h = record {
  lines_split = omega (arith, portion-le shape.blks_per_pl cfg.slc_portion h);
  lines_are_blocks = refl;
  plane = refl;
  die = refl;
  channel = refl;
  drive = refl;
  line = refl;
  line_slc = refl;
  block = refl;
  block_slc = refl;
}

slc_from_shape-IsSlcGeometry :
    (cfg : Config) (old : SsdParams) (nparts : ℕ) (o : Option Shape) {spp : SsdParams}
    → cfg.slc_portion ≤ 100
    → slc_from_shape cfg old nparts o ≡ some spp
    → IsSlcGeometry spp
unfolding slc_from_shape
slc_from_shape-IsSlcGeometry cfg old nparts none h e = cc
slc_from_shape-IsSlcGeometry cfg old nparts (some shape) h e =
    let guarded = if-eq-some (page_sizes_divide cfg && cfg.blks_per_pln == shape.blks_per_pl) _ e in
    subst IsSlcGeometry (some-injective _ _ guarded.1)
      (slc_params-IsSlcGeometry cfg old shape nparts h)

-- Whenever `ssd_init_params_slc` returns, for any configuration with a cache share of at most 100
-- percent, capacity and number of partitions, its parameters form a geometry whose sizes fit
-- together, in the whole, in the cache and in the TLC area.
pub ssd_init_params_slc-IsSlcGeometry :
    (cfg : Config) (old : SsdParams) (capacity nparts : ℕ) {spp : SsdParams}
    → cfg.slc_portion ≤ 100
    → ssd_init_params_slc cfg old capacity nparts ≡ some spp
    → IsSlcGeometry spp
unfolding ssd_init_params_slc
ssd_init_params_slc-IsSlcGeometry cfg old capacity nparts h e =
    slc_from_shape-IsSlcGeometry cfg old nparts _ h
      (if-eq-some (cfg.nand_channels % nparts == 0) _ e).1
