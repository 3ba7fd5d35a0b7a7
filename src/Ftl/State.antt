-- ===== src/Ftl/State.antt =====
-- The state of conv_ftl.h, and the interface of the priority queue that it uses.
use nvmevirt_slc_cache.Common.{ℕ, Bool, true, false, List, Option, none, some, ltb, update, St}
use nvmevirt_slc_cache.Params.{SsdParams}
use nvmevirt_slc_cache.Ppa.{Ppa}
use nvmevirt_slc_cache.Nand.{Ssd}

-- `enum line_mode`
pub data LineMode : Type 0 where
  slc_mode tlc_mode : LineMode

-- USER_IO, GC_IO
pub data IoType : Type 0 where
  user_io gc_io : IoType

abbrev pub is_slc : LineMode → Bool
is_slc slc_mode = true
is_slc tlc_mode = false

-- `struct convparams`, but for the two percentages, which only `conv_init_namespace` uses.
pub record ConvParams : Type 0 where
  pub gc_thres_lines : ℕ
  pub gc_thres_lines_high : ℕ
  pub enable_gc_delay : Bool
  pub mig_thres_lines : ℕ
  pub mig_thres_lines_high : ℕ

-- `struct line`. The list on which its member `entry` hangs is kept in `LineMgmt`.
pub record Line : Type 0 where
  pub id : ℕ
  pub ipc : ℕ
  pub vpc : ℕ
  pub pos : ℕ
  pub mtime : ℕ

-- A `struct line *`: an entry of the array of one of the two line managers.
pub record LineRef : Type 0 where
  pub area : LineMode
  pub idx : ℕ

pub record WritePointer : Type 0 where
  pub curline : LineRef
  pub ch : ℕ
  pub lun : ℕ
  pub pg : ℕ
  pub blk : ℕ
  pub pl : ℕ

-- `struct line_mgmt`. A list holds the indices of lines, and so does the queue: `victim_line_pq` is
-- `d[1] … d[size - 1]` of the `pqueue_t`, which conv_ftl.c also reads itself.
pub record LineMgmt : Type 0 where
  pub lines : ℕ → Line
  pub free_line_list : List ℕ
  pub victim_line_pq : List ℕ
  pub full_line_list : List ℕ
  pub tt_lines : ℕ
  pub free_line_cnt : ℕ
  pub victim_line_cnt : ℕ
  pub full_line_cnt : ℕ

pub record WriteFlowControl : Type 0 where
  pub write_credits : ℕ
  pub credits_to_refill : ℕ

pub record ConvFtl : Type 0 where
  pub ssd : Ssd
  pub cp : ConvParams
  pub maptbl : ℕ → Ppa
  pub rmap : ℕ → ℕ
  pub wp : WritePointer
  pub gc_wp : WritePointer
  pub lm : LineMgmt
  pub wfc : WriteFlowControl
  pub gc_cnt : ℕ
  pub copy_cnt : ℕ
  pub age_cnt : ℕ → ℕ
  pub slm : LineMgmt
  pub slc_mode : LineMode
  pub dyn_slc_mode : LineMode

-- The callbacks that `pqueue_init` takes, over an array of lines.
pub record Callbacks : Type 0 where
  pub cmppri : ℕ → ℕ → Bool
  pub getpri : Line → ℕ
  pub setpri : Line → ℕ → Line
  pub getpos : Line → ℕ
  pub setpos : Line → ℕ → Line

-- The library `pqueue` (a copy of libpqueue) as the operations that conv_ftl.c calls. Each takes the
-- callbacks, the queue and the array of lines that its entries index, and gives the new ones.
pub record Pqueue : Type 0 where
  pub insert : Callbacks → List ℕ → (ℕ → Line) → ℕ → List ℕ × (ℕ → Line)
  pub change_priority : Callbacks → List ℕ → (ℕ → Line) → ℕ → ℕ → List ℕ × (ℕ → Line)
  pub remove : Callbacks → List ℕ → (ℕ → Line) → ℕ → List ℕ × (ℕ → Line)
  pub pop : Callbacks → List ℕ → (ℕ → Line) → List ℕ × (ℕ → Line)
  pub peek : Callbacks → List ℕ → (ℕ → Line) → Option ℕ

-- `victim_line_cmp_pri` to `victim_line_set_pos`: the line with the fewest valid pages comes first.
abbrev pub victim_line_callbacks : Callbacks
victim_line_callbacks = record {
  cmppri = λ next curr. ltb curr next;
  getpri = λ a. a.vpc;
  setpri = λ a pri. record a { vpc = pri };
  getpos = λ a. a.pos;
  setpos = λ a pos. record a { pos = pos };
}

-- The line manager of an area, and a write to it.
abbrev pub lm_of : ConvFtl → LineMode → LineMgmt
lm_of s slc_mode = s.slm
lm_of s tlc_mode = s.lm

abbrev pub set_lm : ConvFtl → LineMode → LineMgmt → ConvFtl
set_lm s slc_mode l = record s { slm = l }
set_lm s tlc_mode l = record s { lm = l }

-- The line that a pointer names, and a write to it.
abbrev pub line_at : ConvFtl → LineRef → Line
line_at s r = (lm_of s r.area).lines r.idx

abbrev pub set_line : ConvFtl → LineRef → Line → ConvFtl
set_line s r l =
    let m = lm_of s r.area in set_lm s r.area (record m { lines = update m.lines r.idx l })

-- The sizes of a block, a wordline and a line of an area.
abbrev pub pgs_per_blk_of : SsdParams → LineMode → ℕ
pgs_per_blk_of spp slc_mode = spp.pgs_per_blk_slc
pgs_per_blk_of spp tlc_mode = spp.pgs_per_blk

abbrev pub pgs_per_oneshotpg_of : SsdParams → LineMode → ℕ
pgs_per_oneshotpg_of spp slc_mode = spp.pgs_per_oneshotpg_slc
pgs_per_oneshotpg_of spp tlc_mode = spp.pgs_per_oneshotpg

abbrev pub pgs_per_line_of : SsdParams → LineMode → ℕ
pgs_per_line_of spp slc_mode = spp.pgs_per_line_slc
pgs_per_line_of spp tlc_mode = spp.pgs_per_line

-- An operation of the drive, run from the translation layer.
abbrev pub on_ssd : {A : Type 0} → St Ssd A → St ConvFtl A
on_ssd m s = elim (m s.ssd) [ none ↦ none | some (a, d) ↦ some (a, record s { ssd = d }) ]

-- `__get_wp`, and a write through it.
abbrev pub get_wp : ConvFtl → IoType → WritePointer
get_wp s user_io = s.wp
get_wp s gc_io = s.gc_wp

abbrev pub set_wp : ConvFtl → IoType → WritePointer → ConvFtl
set_wp s user_io w = record s { wp = w }
set_wp s gc_io w = record s { gc_wp = w }
