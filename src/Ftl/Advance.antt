-- ===== src/Ftl/Advance.antt =====
-- The write pointers: `prepare_write_pointer` and `advance_write_pointer` of conv_ftl.c.
use nvmevirt_slc_cache.Common.{
  ℕ, ◌+◌, ◌-◌, ◌%◌, Bool, true, false, not, ◌&&◌, Option, none, some, ltb, ◌==◌, if◌then◌else◌, u32,
  list_add_tail, St,
}
use nvmevirt_slc_cache.Ftl.State.{
  LineMode, slc_mode, tlc_mode, IoType, user_io, gc_io, LineMgmt, WritePointer, ConvFtl, Pqueue,
  victim_line_callbacks, lm_of, set_lm, line_at, get_wp, set_wp, pgs_per_blk_of,
  pgs_per_oneshotpg_of, pgs_per_line_of,
}
use nvmevirt_slc_cache.Ftl.Lines.{get_next_free_line}

-- The mode that `prepare_write_pointer` selects before it takes a line.
abbrev pub prepare_mode : LineMode → IoType → LineMode
prepare_mode slc_mode user_io = slc_mode
prepare_mode slc_mode gc_io = tlc_mode
prepare_mode tlc_mode _ = tlc_mode

unfoldable pub prepare_write_pointer : IoType → St ConvFtl (Unit {0})
unfolding get_next_free_line
prepare_write_pointer io s =
    let (found, t) = get_next_free_line (record s { dyn_slc_mode = prepare_mode s.slc_mode io }) in
    elim found [
      | none ↦ none
      | some r ↦ some (
        tt,
        set_wp t io
            (record { curline = r; ch = 0; lun = 0; pg = 0; blk = (line_at t r).id; pl = 0 }),
      )
    ]

-- The area, and so the manager and the sizes, that `advance_write_pointer` works with.
abbrev pub write_area : LineMode → IoType → LineMode
write_area slc_mode user_io = slc_mode
write_area slc_mode gc_io = tlc_mode
write_area tlc_mode _ = tlc_mode

-- The part of `advance_write_pointer` before the line is used up: the next page of the line, with
-- the truth value that says that the line is used up. A failed `check_addr` stops the kernel.
unfoldable pub next_page : ℕ → ℕ → ℕ → ℕ → WritePointer → Option (WritePointer × Bool)
next_page per_blk oneshot nchs luns w =
    let pg = w.pg + 1 in
    if not (ltb w.pg per_blk)
    then none
    else if not (pg % oneshot == 0)
    then some (record w { pg = pg }, false)
    else if not (ltb w.ch nchs)
    then none
    else if not (w.ch + 1 == nchs)
    then some (record w { pg = pg - oneshot; ch = w.ch + 1 }, false)
    else if not (ltb w.lun luns)
    then none
    else if not (w.lun + 1 == luns)
    then some (record w { pg = pg - oneshot; ch = 0; lun = w.lun + 1 }, false)
    else if not (pg == per_blk)
    then some (record w { pg = pg; ch = 0; lun = 0 }, false)
    else some (record w { pg = 0; ch = 0; lun = 0 }, true)

-- A used-up line goes to the full list, or with invalid pages to the victim queue.
unfoldable pub retire_line : Pqueue → ℕ → ℕ → LineMgmt → Option LineMgmt
retire_line pq per_line i m =
    let l = m.lines i in
    let (d, lines) = pq.insert victim_line_callbacks m.victim_line_pq m.lines i in
    if l.vpc == per_line
    then (if l.ipc == 0
        then some (record m {
          full_line_list = list_add_tail i m.full_line_list;
          full_line_cnt = u32 (m.full_line_cnt + 1);
        })
        else none)
    else if ltb l.vpc per_line && (ltb 0 l.ipc && l.vpc + l.ipc == per_line)
    then some (record m {
      victim_line_pq = d;
      lines = lines;
      victim_line_cnt = u32 (m.victim_line_cnt + 1);
    })
    else none

-- The mode that `advance_write_pointer` selects before it takes a line.
abbrev pub io_mode : IoType → LineMode
io_mode user_io = slc_mode
io_mode gc_io = tlc_mode

-- A new line for a write pointer that stands at the start of one.
unfoldable pub take_line : IoType → WritePointer → St ConvFtl (Unit {0})
unfolding get_next_free_line
take_line io w s =
    let blks = s.ssd.sp.blks_per_pl in
    let (found, t) = get_next_free_line (record s { dyn_slc_mode = io_mode io }) in
    if ltb w.blk blks
    then elim found [
      | none ↦ none
      | some r ↦
          let id = (line_at t r).id in
          if ltb id blks && w.pl == 0
          then some (tt, set_wp t io (record w { curline = r; blk = id }))
          else none
    ]
    else none

unfoldable pub advance_write_pointer : Pqueue → IoType → St ConvFtl (Unit {0})
unfolding next_page retire_line take_line
advance_write_pointer pq io s =
    let spp = s.ssd.sp in
    let area = write_area s.slc_mode io in
    let w = get_wp s io in
    elim (next_page (pgs_per_blk_of spp area) (pgs_per_oneshotpg_of spp area) spp.nchs
      spp.luns_per_ch w) [
        | none ↦ none
        | some (w', false) ↦ some (tt, set_wp s io w')
        | some (w', true) ↦
            elim (retire_line pq (pgs_per_line_of spp area) w'.curline.idx (lm_of s area)) [
              | none ↦ none
              | some m ↦ take_line io w' (set_lm s area m)
            ]
      ]
