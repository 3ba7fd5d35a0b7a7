-- ===== src/Nand/State.antt =====
-- The state of the drive: `struct ssd` and the structures below it, and the access to its parts.
use nvmevirt_slc_cache.Common.{ℕ, ◌+◌, Bool, true, false, update, St, some}
use nvmevirt_slc_cache.Common.{List}
use nvmevirt_slc_cache.Channel.{ChannelModel}
use nvmevirt_slc_cache.Params.{Config, SsdParams}
use nvmevirt_slc_cache.Ppa.{Ppa}

-- PG_FREE, PG_INVALID, PG_VALID; sectors have the same three.
pub data PageStatus : Type 0 where
  pg_free pg_invalid pg_valid : PageStatus

abbrev pub is_free : PageStatus → Bool
is_free pg_free = true
is_free _ = false

abbrev pub is_valid : PageStatus → Bool
is_valid pg_valid = true
is_valid _ = false

pub record NandPage : Type 0 where
  pub sec : ℕ → PageStatus
  pub nsecs : ℕ
  pub status : PageStatus

pub record NandBlock : Type 0 where
  pub pg : ℕ → NandPage
  pub npgs : ℕ
  pub ipc : ℕ
  pub vpc : ℕ
  pub erase_cnt : ℕ
  pub wp : ℕ

pub record NandPlane : Type 0 where
  pub blk : ℕ → NandBlock
  pub nblks : ℕ

pub record NandLun : Type 0 where
  pub pl : ℕ → NandPlane
  pub npls : ℕ
  pub next_lun_avail_time : ℕ
  pub busy : Bool
  pub gc_endtime : ℕ

pub record SsdChannel : Type 0 where
  pub lun : ℕ → NandLun
  pub nluns : ℕ
  pub perf_model : ChannelModel

pub record Buffer : Type 0 where
  pub size : ℕ
  pub remaining : ℕ

-- A release of write buffer that `schedule_internal_operation` has put into the I/O queue.
pub record Release : Type 0 where
  pub sq_id : ℕ
  pub nsecs_target : ℕ
  pub amount : ℕ

-- `struct ssd`. `pcie` is its channel model. `reads` counts the readings of the clocks so far, and
-- `scheduled` the internal operations handed to the I/O workers, the latest first.
pub record Ssd : Type 0 where
  pub sp : SsdParams
  pub ch : ℕ → SsdChannel
  pub pcie : ChannelModel
  pub write_buffer : Buffer
  pub reads : ℕ
  pub scheduled : List Release

-- What the kernel gives: the build's constants, and what the n-th reading of a clock returns.
pub record Machine : Type 0 where
  pub config : Config
  pub cpu_clock : ℕ → ℕ
  pub ktime_get_ns : ℕ → ℕ

unfoldable pub read_cpu_clock : Machine → St Ssd ℕ
read_cpu_clock m s = some (m.cpu_clock s.reads, record s { reads = s.reads + 1 })

unfoldable pub get_lun : Ssd → Ppa → NandLun
get_lun s p = (s.ch p.ch).lun p.lun

unfoldable pub get_pl : Ssd → Ppa → NandPlane
unfolding get_lun
get_pl s p = (get_lun s p).pl p.pl

unfoldable pub get_blk : Ssd → Ppa → NandBlock
unfolding get_pl
get_blk s p = (get_pl s p).blk p.blk

unfoldable pub get_pg : Ssd → Ppa → NandPage
unfolding get_blk
get_pg s p = (get_blk s p).pg p.pg

-- A write through the pointer that `get_ch`, `get_lun`, `get_blk` or `get_pg` returns.
unfoldable pub set_ch : Ssd → Ppa → SsdChannel → Ssd
set_ch s p c = record s { ch = update s.ch p.ch c }

unfoldable pub set_lun : Ssd → Ppa → NandLun → Ssd
unfolding set_ch
set_lun s p l = set_ch s p (record (s.ch p.ch) { lun = update (s.ch p.ch).lun p.lun l })

unfoldable pub set_blk : Ssd → Ppa → NandBlock → Ssd
unfolding set_lun get_lun get_pl
set_blk s p b =
    let l = get_lun s p in
    let pl = get_pl s p in
    set_lun s p (record l { pl = update l.pl p.pl (record pl { blk = update pl.blk p.blk b }) })

unfoldable pub set_pg : Ssd → Ppa → NandPage → Ssd
unfolding set_blk get_blk
set_pg s p g = let b = get_blk s p in set_blk s p (record b { pg = update b.pg p.pg g })
