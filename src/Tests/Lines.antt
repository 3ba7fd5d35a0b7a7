-- ===== src/Tests/Lines.antt =====
-- Lines, write pointers, the choice of a victim, and requests that reach no flash.
use nvmevirt_slc_cache.Common.{
  ℕ, ◌+◌, ◌-◌, ◌*◌, ◌/◌, ◌≡◌, ◌≤◌, ◌<◌, ◌^◌, refl, arith, false, some, [], ◌∷◌, Returns,
  list_add_tail, length,
}
use nvmevirt_slc_cache.Ppa.{Ppa, mapped_ppa}
use nvmevirt_slc_cache.Nand.{ssd_init}
use nvmevirt_slc_cache.Ftl.{
  tlc_mode, Line, LineMgmt, WritePointer, lm_of, line_at, get_line, page_area, get_next_free_line,
  mark_line_free, free_area,
}
use nvmevirt_slc_cache.Ftl.Pages.{invalidate_line}
use nvmevirt_slc_cache.Ftl.Advance.{next_page, retire_line}
use nvmevirt_slc_cache.Ftl.Namespace.{Namespace, RwRequest, end_lpn}
use nvmevirt_slc_cache.Ftl.Read.{conv_read}
use nvmevirt_slc_cache.Ftl.Sweep.{Stepped, next_page-Stepped}
use nvmevirt_slc_cache.Ftl.Relines.{Recounted}
use nvmevirt_slc_cache.Ftl.Queue.{invalidate_line-Recounted}
use nvmevirt_slc_cache.Ftl.FreeLines.{
  IsListed, BothListed, Taken, get_next_free_line-Taken, Retired, retire_line-Retired,
  mark_line_free-BothListed,
}
use nvmevirt_slc_cache.Ftl.Unwritten.{Blank, conv_read-Blank}
use nvmevirt_slc_cache.Tests.Instance.{machine, queue, queue-KeepsCounts, ftl}

-- The last page of a wordline on the last die of a line of two dies.
abbrev pointer : WritePointer
pointer = record {
  curline = record { area = tlc_mode; idx = 0 };
  ch = 1;
  lun = 0;
  pg = 2;
  blk = 2;
  pl = 0;
}

next_page-Stepped_example : Returns (Stepped 6 3 2 1 pointer) (next_page 6 3 2 1 pointer)
next_page-Stepped_example =
    next_page-Stepped 6 3 2 1 pointer (omega arith) (omega arith)
      (record { pg_in = omega arith; ch_in = omega arith; lun_in = omega arith })

-- A full line, and one with invalid pages.
abbrev used_lines : ℕ → Line
used_lines i = record { id = i; ipc = i; vpc = 4 - i; pos = 0; mtime = 0 }

abbrev manager : LineMgmt
manager = record {
  lines = used_lines;
  free_line_list = [];
  victim_line_pq = 2 ∷ (1 ∷ []);
  full_line_list = 0 ∷ [];
  tt_lines = 3;
  free_line_cnt = 0;
  victim_line_cnt = 2;
  full_line_cnt = 1;
}

invalidate_line-Recounted_example :
    Returns (Recounted manager 0 1 3) (invalidate_line queue 4 0 manager)
invalidate_line-Recounted_example =
    invalidate_line-Recounted queue queue-KeepsCounts 4 0 manager (omega arith) (omega arith)

manager-IsListed : IsListed manager
manager-IsListed = record {
  free = refl;
  full = refl;
  free_fits = omega arith;
  full_fits = omega arith;
}

retire_line-Retired_example : Returns (Retired queue 1 manager) (retire_line queue 4 1 manager)
retire_line-Retired_example =
    retire_line-Retired queue 4 1 manager manager-IsListed (omega arith) (omega arith)

ftl-BothListed : BothListed ftl
ftl-BothListed = record {
  slc = record { free = refl; full = refl; free_fits = omega arith; full_fits = omega arith };
  tlc = record { free = refl; full = refl; free_fits = omega arith; full_fits = omega arith };
}

get_next_free_line-Taken_example :
    Taken ftl (lm_of ftl (free_area ftl)).free_line_list (get_next_free_line ftl)
get_next_free_line-Taken_example = get_next_free_line-Taken ftl ftl-BothListed

-- Block 0 lies in the cache.
abbrev block : Ppa
block = record { pg = 0; blk = 0; pl = 0; lun = 0; ch = 0; rsv = 0 }

ftl-cache_lines : ftl.slm.tt_lines ≡ ftl.ssd.sp.tt_lines_slc
unfolding ssd_init
ftl-cache_lines = refl

room : length (lm_of ftl (page_area ftl block)).free_line_list + 1 < 2 ^ 32
unfolding ssd_init
room = omega arith

mark_line_free-BothListed_example :
    BothListed (mark_line_free block ftl)
    × ((lm_of (mark_line_free block ftl) (page_area ftl block)).free_line_list
        ≡ list_add_tail (get_line ftl block).idx (lm_of ftl (page_area ftl block)).free_line_list)
    × ((line_at (mark_line_free block ftl) (get_line ftl block)).ipc ≡ 0)
    × ((line_at (mark_line_free block ftl) (get_line ftl block)).vpc ≡ 0)
mark_line_free-BothListed_example =
    mark_line_free-BothListed ftl block ftl-cache_lines ftl-BothListed room

abbrev namespace : Namespace
namespace = record {
  nr_parts = 1;
  ftls = λ _. ftl;
  shared = record {
    pcie = ftl.ssd.pcie;
    write_buffer = ftl.ssd.write_buffer;
    reads = 0;
    scheduled = [];
  };
  size = 131072;
}

-- Two pages from logical page 3 on, and from page 31, the last one.
abbrev request : ℕ → RwRequest
request lpn = record { slba = lpn * 8; length = 15; fua = false; sq_id = 1; nsecs_start = 500 }

namespace-Blank : Blank namespace
unfolding mapped_ppa
namespace-Blank i l = refl

inside : end_lpn ftl.ssd.sp (request 3) / 1 < ftl.ssd.sp.tt_pgs
unfolding ssd_init
inside = omega arith

conv_read-Blank_example :
    conv_read machine (request 3) namespace ≡ some (some (record { nsecs_target = 500 }), namespace)
conv_read-Blank_example = conv_read-Blank machine (request 3) namespace namespace-Blank inside

outside : ftl.ssd.sp.tt_pgs ≤ end_lpn ftl.ssd.sp (request 31) / 1
unfolding ssd_init
outside = omega arith
