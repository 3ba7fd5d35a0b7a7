-- ===== src/Zns/Start.antt =====
-- Setting up a zoned namespace: zns_ftl.c.
use nvmevirt_slc_cache.Common.{
  ℕ, ◌*◌, ◌/◌, ◌%◌, ◌^◌, false, ◌&&◌, Option, none, some, [], ◌==◌, if◌then◌else◌, u32,
}
use nvmevirt_slc_cache.Params.{SsdParams}
use nvmevirt_slc_cache.Params.Init.{ssd_init_params}
use nvmevirt_slc_cache.Nand.{Ssd, Machine, buffer_init, ssd_init}
use nvmevirt_slc_cache.Zns.State.{
  empty, ZoneResourceType, ZoneResourceInfo, ZoneDescriptor, ZnsParams, ZnsFtl,
}

-- The constants of ssd_config.h that only a zoned configuration defines.
pub record ZoneConfig : Type 0 where
  pub zone_size : ℕ
  pub dies_per_zone : ℕ
  pub max_zrwa_zones : ℕ
  pub zone_wb_size : ℕ
  pub zrwa_size : ℕ
  pub zrwafg_size : ℕ
  pub zrwa_buffer_size : ℕ

-- `__init_descriptor`: the loop adds the size of a zone, in blocks, for each.
unfoldable pub init_descriptor : ℕ → ZnsParams → ℕ → ZoneDescriptor
init_descriptor lba_bits zp i =
    let lbas = zp.zone_size / 2 ^ lba_bits in
    record { state = empty; zrwav = false; zone_capacity = lbas; zslba = i * lbas; wp = i * lbas }

-- `__init_resource`: every resource is enough for all zones.
unfoldable pub init_resource : ZnsParams → ZoneResourceType → ZoneResourceInfo
init_resource zp t = record { total_cnt = zp.nr_zones; acquired_cnt = 0 }

unfoldable pub zns_init_params : ZoneConfig → SsdParams → ℕ → Option ZnsParams
zns_init_params c spp capacity =
    if capacity % c.zone_size == 0 && c.zone_size % spp.pgsz == 0
    then some (record {
      zone_size = c.zone_size;
      nr_zones = u32 (capacity / c.zone_size);
      dies_per_zone = c.dies_per_zone;
      nr_active_zones = u32 (capacity / c.zone_size);
      nr_open_zones = u32 (capacity / c.zone_size);
      nr_zrwa_zones = c.max_zrwa_zones;
      zone_wb_size = c.zone_wb_size;
      zrwa_size = c.zrwa_size;
      zrwafg_size = c.zrwafg_size;
      zrwa_buffer_size = c.zrwa_buffer_size;
      lbas_per_zrwa = c.zrwa_size / spp.secsz;
      lbas_per_zrwafg = c.zrwafg_size / spp.secsz;
    })
    else none

-- `zns_init_ftl`; buffers of size 0 are never allocated, and never used.
unfoldable pub zns_init_ftl : ℕ → ZnsParams → Ssd → (ℕ → ℕ) → ZnsFtl
unfolding init_descriptor init_resource buffer_init
zns_init_ftl lba_bits zp ssd mapped = record {
  ssd = ssd;
  zp = zp;
  res_infos = init_resource zp;
  zone_descs = init_descriptor lba_bits zp;
  zone_write_buffer = λ _. buffer_init zp.zone_wb_size;
  zrwa_buffer = λ _. buffer_init zp.zrwa_buffer_size;
  storage = mapped;
  scheduled = [];
}

-- `zns_init_namespace`: one partition. `junk` is what the variable for the parameters holds before.
unfoldable pub zns_init_namespace : Machine → ZoneConfig → SsdParams → ℕ → (ℕ → ℕ) → Option ZnsFtl
unfolding ssd_init_params ssd_init zns_init_params zns_init_ftl
zns_init_namespace m c junk size mapped = elim (ssd_init_params m.config junk size 1) [
  | none ↦ none
  | some spp ↦ elim (zns_init_params c spp size) [
    | none ↦ none
    | some zp ↦ some (zns_init_ftl m.config.lba_bits zp (ssd_init spp) mapped)
  ]
]
