-- ===== src/Ftl/Lines.antt =====
-- Taking free lines, giving them back, and setting the lines up.
use nvmevirt_slc_cache.Common.{
  ℕ, zero, suc, ◌+◌, ◌&&◌, Option, none, some, List, [], ◌∷◌, ◌==◌, if◌then◌else◌, u32, sub32,
  list_add_tail,
}
use nvmevirt_slc_cache.Ppa.{Ppa}
use nvmevirt_slc_cache.Ftl.State.{
  LineMode, slc_mode, tlc_mode, is_slc, LineRef, LineMgmt, ConvFtl, lm_of, set_lm, line_at,
  set_line,
}
use nvmevirt_slc_cache.Ftl.Mapping.{page_area, get_line}

-- The area from which `get_next_free_line` takes.
abbrev pub free_area : ConvFtl → LineMode
free_area s = if is_slc s.slc_mode && is_slc s.dyn_slc_mode then slc_mode else tlc_mode

unfoldable pub take_first : LineMgmt → List ℕ → Option (ℕ × LineMgmt)
take_first m [] = none
take_first m (i ∷ rest) =
    some (i, record m { free_line_list = rest; free_line_cnt = sub32 m.free_line_cnt 1 })

-- The result is NULL if no line of the area is free.
unfoldable pub get_next_free_line : ConvFtl → Option LineRef × ConvFtl
unfolding take_first
get_next_free_line s =
    elim (take_first (lm_of s (free_area s)) (lm_of s (free_area s)).free_line_list) [
      | none ↦ (none, s)
      | some (i, m) ↦ (some (record { area = free_area s; idx = i }), set_lm s (free_area s) m)
    ]

-- The counts are reset and the line goes to the end of its area's free list.
unfoldable pub mark_line_free : Ppa → ConvFtl → ConvFtl
unfolding get_line
mark_line_free p s =
    let r = get_line s p in
    let t = set_line s r (record (line_at s r) { ipc = 0; vpc = 0 }) in
    let area = page_area s p in
    let m = lm_of t area in
    set_lm t area (record m {
      free_line_list = list_add_tail r.idx m.free_line_list;
      free_line_cnt = u32 (m.free_line_cnt + 1);
    })

-- 0, 1, …, n - 1
abbrev pub indices : ℕ → ℕ → List ℕ
indices i zero = []
indices i (suc n) = i ∷ indices (i + 1) n

-- A manager of `n` lines, all free, with ids from `offset` on; the loops add each line at the tail.
unfoldable pub fresh_lines : ℕ → ℕ → LineMgmt
fresh_lines n offset = record {
  lines = λ i. record { id = i + offset; ipc = 0; vpc = 0; pos = 0; mtime = 0 };
  free_line_list = indices 0 n;
  victim_line_pq = [];
  full_line_list = [];
  tt_lines = n;
  free_line_cnt = n;
  victim_line_cnt = 0;
  full_line_cnt = 0;
}

-- `init_lines`: the lines of the TLC area come after those of the SLC cache. Without the cache, `slm`
-- keeps what it held.
unfoldable pub init_lines : ConvFtl → Option ConvFtl
unfolding fresh_lines
init_lines s =
    let spp = s.ssd.sp in
    if is_slc s.slc_mode
    then (if spp.tt_lines_tlc + spp.tt_lines_slc == spp.tt_lines
        then some (record s {
          lm = fresh_lines spp.tt_lines_tlc spp.tt_lines_slc;
          slm = fresh_lines spp.tt_lines_slc 0;
        })
        else none)
    else if spp.blks_per_pl == spp.tt_lines
    then some (record s { lm = fresh_lines spp.blks_per_pl 0 })
    else none
