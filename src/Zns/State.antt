-- ===== src/Zns/State.antt =====
-- The state of zns_ftl.h: zones, their resources, their buffers; and the status codes of nvme_zns.h.
use nvmevirt_slc_cache.Common.{ℕ, Bool, List}
use nvmevirt_slc_cache.Nand.{Ssd, Buffer}

-- `enum zone_state`
pub data ZoneState : Type 0 where
  empty opened_impl opened_expl closed read_only full offline : ZoneState

-- `enum zone_resource_type`
pub data ZoneResourceType : Type 0 where
  active_zone open_zone zrwa_zone : ZoneResourceType

-- The NVMe status codes that the zoned namespace returns.
pub data Status : Type 0 where
  success invalid_field invalid_zone_operation zrwa_rsrc_unavail err_boundary err_full : Status
  err_read_only err_offline invalid_write no_active_zone no_open_zone invalid_transition : Status

-- `struct zone_descriptor`; of the attributes only `zrwav` is ever set, and the type is always
-- ZONE_TYPE_SEQ_WRITE_REQUIRED.
pub record ZoneDescriptor : Type 0 where
  pub state : ZoneState
  pub zrwav : Bool
  pub zone_capacity : ℕ
  pub zslba : ℕ
  pub wp : ℕ

pub record ZnsParams : Type 0 where
  pub nr_zones : ℕ
  pub nr_active_zones : ℕ
  pub nr_open_zones : ℕ
  pub dies_per_zone : ℕ
  pub zone_size : ℕ
  pub zone_wb_size : ℕ
  pub nr_zrwa_zones : ℕ
  pub zrwafg_size : ℕ
  pub zrwa_size : ℕ
  pub zrwa_buffer_size : ℕ
  pub lbas_per_zrwafg : ℕ
  pub lbas_per_zrwa : ℕ

pub record ZoneResourceInfo : Type 0 where
  pub acquired_cnt : ℕ
  pub total_cnt : ℕ

-- The buffers that a write may take its space from, as `schedule_internal_operation` names them.
pub data BufferRef : Type 0 where
  drive_buffer : BufferRef
  zone_buffer zone_zrwa_buffer : ℕ → BufferRef

pub record ZoneRelease : Type 0 where
  pub sq_id : ℕ
  pub nsecs_target : ℕ
  pub buffer : BufferRef
  pub amount : ℕ

-- `struct zns_ftl`. `storage` is the memory at `storage_base_addr`, by bytes, and `scheduled` the
-- releases of buffers handed to the I/O workers, the latest first.
pub record ZnsFtl : Type 0 where
  pub ssd : Ssd
  pub zp : ZnsParams
  pub res_infos : ZoneResourceType → ZoneResourceInfo
  pub zone_descs : ℕ → ZoneDescriptor
  pub zone_write_buffer : ℕ → Buffer
  pub zrwa_buffer : ℕ → Buffer
  pub storage : ℕ → ℕ
  pub scheduled : List ZoneRelease
