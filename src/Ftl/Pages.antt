-- ===== src/Ftl/Pages.antt =====
-- Page states: `mark_page_invalid`, `mark_page_valid` and `mark_block_free` of conv_ftl.c.
use nvmevirt_slc_cache.Common.{
  ℕ, zero, suc, ◌+◌, ◌-◌, ◌&&◌, Option, none, some, ltb, leb, ◌==◌, if◌then◌else◌, update, u32,
  sub32, list_del, St,
}
use nvmevirt_slc_cache.Ppa.{Ppa}
use nvmevirt_slc_cache.Nand.{
  pg_free, pg_invalid, pg_valid, is_free, is_valid, NandPage, Ssd, get_pg, get_blk, set_pg, set_blk,
}
use nvmevirt_slc_cache.Ftl.State.{
  LineMgmt, ConvFtl, Pqueue, victim_line_callbacks, lm_of, set_lm, line_at, set_line,
  pgs_per_blk_of, pgs_per_line_of,
}
use nvmevirt_slc_cache.Ftl.Mapping.{page_area, get_line}

-- The block part of `mark_page_invalid`: page and block counts.
unfoldable pub invalidate_in_block : ℕ → Ppa → St Ssd (Unit {0})
invalidate_in_block per_blk p d =
    let g = get_pg d p in
    let e = set_pg d p (record g { status = pg_invalid }) in
    let b = get_blk e p in
    if is_valid g.status && (ltb b.ipc per_blk && (ltb 0 b.vpc && leb b.vpc per_blk))
    then some (tt, set_blk e p (record b { ipc = b.ipc + 1; vpc = b.vpc - 1 }))
    else none

-- The block part of `mark_page_valid`.
unfoldable pub validate_in_block : ℕ → Ppa → St Ssd (Unit {0})
validate_in_block per_blk p d =
    let g = get_pg d p in
    let e = set_pg d p (record g { status = pg_valid }) in
    let b = get_blk e p in
    if is_free g.status && ltb b.vpc per_blk
    then some (tt, set_blk e p (record b { vpc = b.vpc + 1 }))
    else none

-- `line->ipc++`, then one valid page less: through the queue if the line is in it.
unfoldable pub invalidate_in_line : Pqueue → ℕ → LineMgmt → LineMgmt
invalidate_in_line pq i m =
    let l = m.lines i in
    let lines = update m.lines i (record l { ipc = l.ipc + 1 }) in
    let (d, changed) =
      pq.change_priority victim_line_callbacks m.victim_line_pq lines (l.vpc - 1) i in
    if l.pos == 0
    then record m { lines = update m.lines i (record l { ipc = l.ipc + 1; vpc = l.vpc - 1 }) }
    else record m { lines = changed; victim_line_pq = d }

-- A line that was full leaves the full list for the victim queue.
unfoldable pub full_to_victim : Pqueue → ℕ → LineMgmt → LineMgmt
full_to_victim pq i m =
    let (d, lines) = pq.insert victim_line_callbacks m.victim_line_pq m.lines i in
    record m {
      full_line_list = list_del i m.full_line_list;
      full_line_cnt = sub32 m.full_line_cnt 1;
      victim_line_pq = d;
      lines = lines;
      victim_line_cnt = u32 (m.victim_line_cnt + 1);
    }

-- The line part of `mark_page_invalid`, on the manager of the page's area, with its assertions.
unfoldable pub invalidate_line : Pqueue → ℕ → ℕ → LineMgmt → Option LineMgmt
unfolding invalidate_in_line full_to_victim
invalidate_line pq per_line i m =
    let l = m.lines i in
    let was_full = l.vpc == per_line in
    let t = invalidate_in_line pq i m in
    let l' = t.lines i in
    if ltb l.ipc per_line && (ltb 0 l.vpc && leb l.vpc per_line)
    then (if was_full
        then (if l.ipc == 0 && l'.vpc + l'.ipc == per_line
            then some (full_to_victim pq i t)
            else none)
        else some t)
    else none

unfoldable pub mark_page_invalid : Pqueue → Ppa → St ConvFtl (Unit {0})
unfolding invalidate_in_block invalidate_line get_line
mark_page_invalid pq p s =
    let spp = s.ssd.sp in
    let area = page_area s p in
    let i = (get_line s p).idx in
    if spp.tt_lines_slc == s.slm.tt_lines
    then elim (invalidate_in_block (pgs_per_blk_of spp area) p s.ssd) [
      | none ↦ none
      | some (_, d) ↦ elim (invalidate_line pq (pgs_per_line_of spp area) i (lm_of s area)) [
        | none ↦ none
        | some m ↦ some (tt, set_lm (record s { ssd = d }) area m)
      ]
    ]
    else none

unfoldable pub mark_page_valid : Ppa → St ConvFtl (Unit {0})
unfolding validate_in_block get_line
mark_page_valid p s =
    let spp = s.ssd.sp in
    let area = page_area s p in
    let r = get_line s p in
    let l = line_at s r in
    elim (validate_in_block (pgs_per_blk_of spp area) p s.ssd) [
      | none ↦ none
      | some (_, d) ↦
          if ltb l.vpc (pgs_per_line_of spp area)
          then some (tt, set_line (record s { ssd = d }) r (record l { vpc = l.vpc + 1 }))
          else none
    ]

-- The loop of `mark_block_free` over the pages of a block.
unfoldable pub free_pages : ℕ → ℕ → (ℕ → NandPage) → Option (ℕ → NandPage)
free_pages secs zero pg = some pg
free_pages secs (suc n) pg = elim (free_pages secs n pg) [
  | none ↦ none
  | some pg' ↦
      if (pg' n).nsecs == secs
      then some (update pg' n (record (pg' n) { status = pg_free }))
      else none
]

unfoldable pub mark_block_free : Ppa → St ConvFtl (Unit {0})
unfolding free_pages
mark_block_free p s =
    let spp = s.ssd.sp in
    let per_blk = pgs_per_blk_of spp (page_area s p) in
    let b = get_blk s.ssd p in
    elim (free_pages spp.secs_per_pg per_blk b.pg) [
      | none ↦ none
      | some pg ↦
          if b.npgs == per_blk
          then some (
            tt,
            record s {
              ssd =
                  set_blk s.ssd p
                    (record b { pg = pg; ipc = 0; vpc = 0; erase_cnt = b.erase_cnt + 1 });
            },
          )
          else none
    ]
