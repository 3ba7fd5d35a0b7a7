-- ===== src/Tests/Mapping.antt =====
-- The tables, the marking of pages, and the start of an instance.
use nvmevirt_slc_cache.Common.{
  ℕ, ◌+◌, ◌-◌, ◌≡◌, ◌<◌, refl, sym, subst, arith, true, some, Returns, Returns-value_or, value_or,
}
use nvmevirt_slc_cache.Params.{SsdParams}
use nvmevirt_slc_cache.Ppa.{mapped_ppa, unmapped_ppa}
use nvmevirt_slc_cache.Nand.{pg_free, pg_valid, pg_invalid, ssd_init, get_pg, get_blk, set_pg}
use nvmevirt_slc_cache.Ftl.{ConvFtl, user_io}
use nvmevirt_slc_cache.Ftl.{
  valid_ppa, pgidx, ppa2pgidx, get_new_page, page_area, slc_mode, pgs_per_blk_of,
}
use nvmevirt_slc_cache.Ftl.Pages.{
  mark_page_valid, mark_page_invalid, validate_in_block, invalidate_in_block,
}
use nvmevirt_slc_cache.Ftl.Write.{map_page}
use nvmevirt_slc_cache.Ftl.Start.{conv_init_ftl}
use nvmevirt_slc_cache.Ftl.Addresses.{
  OnPage, page_at, SamePage, get_new_page_valid, ppa2pgidx_total, ppa2pgidx_injective,
}
use nvmevirt_slc_cache.Ftl.Blocks.{status_of}
use nvmevirt_slc_cache.Ftl.Consistency.{
  IsLaidOut, IsConsistent, IsConsistent-pointer, All, Owned, valid_ppa-OnLine,
}
use nvmevirt_slc_cache.Ftl.Fresh.{Fresh-IsConsistent, init-IsCounted}
use nvmevirt_slc_cache.Ftl.CountMarks.{
  Accounted, validate_in_block-IsCounted, invalidate_in_block-IsCounted,
}
use nvmevirt_slc_cache.Ftl.LineSums.{AllCounted}
use nvmevirt_slc_cache.Ftl.MarkValid.{OnLine, Validated, mark_page_valid-AllCounted}
use nvmevirt_slc_cache.Ftl.MarkInvalid.{Dropped, mark_page_invalid-AllCounted}
use nvmevirt_slc_cache.Ftl.Boot.{conv_init_ftl-IsConsistent}
use nvmevirt_slc_cache.Ftl.Retag.{SameLayout, SameLayout-IsLaidOut}
use nvmevirt_slc_cache.Ftl.Remap.{Remapped, map_page-Remapped}
use nvmevirt_slc_cache.Tests.Params.{params}
use nvmevirt_slc_cache.Tests.Instance.{
  machine, queue, queue-KeepsCounts, small-IsSlcGeometry, conv_params, ftl, ftl-Fresh,
  ftl-IsLaidOut,
}

conv_init_ftl-IsConsistent_example :
    Returns
      (λ s. IsLaidOut s × IsConsistent All s)
      (conv_init_ftl machine ftl conv_params (ssd_init params))
conv_init_ftl-IsConsistent_example =
    conv_init_ftl-IsConsistent machine ftl conv_params params refl small-IsSlcGeometry refl
      (omega arith) (omega arith)

on_die : (ch : ℕ) → ch < 2 → OnPage params (record (ftl.wp) { ch = ch })
on_die ch h = record {
  ch_in = h;
  lun_in = omega arith;
  pl_zero = refl;
  planes = omega arith;
  blk_in = omega arith;
  pg_in_slc = λ _. omega arith;
  pg_in_tlc = λ _. omega arith;
  few_channels = omega arith;
  few_dies = omega arith;
  few_blocks = omega arith;
  few_pages = omega arith;
  few_pages_slc = omega arith;
}

pub ftl-OnPage : OnPage ftl.ssd.sp ftl.wp
unfolding ssd_init
ftl-OnPage = on_die 0 (omega arith)

first_free : status_of ftl.ssd (page_at ftl.wp) ≡ pg_free
unfolding ssd_init get_pg
first_free = refl

seven_in : 7 < ftl.ssd.sp.tt_pgs
unfolding ssd_init
seven_in = omega arith

-- Logical page 7 is written for the first time.
write_first : Returns (λ r. Remapped ftl 7 r.0 r.1) (map_page machine queue 7 ftl)
write_first =
    map_page-Remapped machine queue ftl 7 queue-KeepsCounts ftl-IsLaidOut
      (Fresh-IsConsistent params ftl ftl-Fresh) seven_in ftl-OnPage first_free

-- The state after that, and the same with the write pointer on the next die.
unfoldable pub written : ConvFtl
unfolding map_page
written = (value_or (unmapped_ppa, ftl) (map_page machine queue 7 ftl)).1

written-Remapped :
    Remapped ftl 7 (value_or (unmapped_ppa, ftl) (map_page machine queue 7 ftl)).0 written
unfolding written
written-Remapped =
    Returns-value_or (λ r. Remapped ftl 7 r.0 r.1) (unmapped_ppa, ftl)
      (map_page machine queue 7 ftl) write_first

unfoldable moved_on : ConvFtl
unfolding written
moved_on = record written { wp = record (ftl.wp) { ch = 1 } }

moved_on-SameLayout : SameLayout ftl moved_on
unfolding moved_on
moved_on-SameLayout =
    let l = written-Remapped.layout in
    record {
      layout_mode = l.layout_mode;
      layout_lines = l.layout_lines;
      layout_params = l.layout_params;
    }

moved_on-IsLaidOut : IsLaidOut moved_on
moved_on-IsLaidOut = SameLayout-IsLaidOut ftl moved_on moved_on-SameLayout ftl-IsLaidOut

moved_on-IsConsistent : IsConsistent All moved_on
unfolding moved_on
moved_on-IsConsistent =
    IsConsistent-pointer All written (record (ftl.wp) { ch = 1 }) written-Remapped.fits

moved_on-params : moved_on.ssd.sp ≡ params
unfolding ssd_init
moved_on-params = moved_on-SameLayout.layout_params

moved_on-OnPage : OnPage moved_on.ssd.sp moved_on.wp
unfolding moved_on
moved_on-OnPage =
    subst (λ (x : SsdParams). OnPage x (record (ftl.wp) { ch = 1 })) (sym moved_on-params)
      (on_die 1 (omega arith))

moved_on_free : status_of moved_on.ssd (page_at moved_on.wp) ≡ pg_free
unfolding moved_on ssd_init get_pg set_pg
moved_on_free = refl

moved_on_seven : 7 < moved_on.ssd.sp.tt_pgs
moved_on_seven = subst (λ (x : SsdParams). 7 < x.tt_pgs) (sym moved_on-params) (omega arith)

-- Page 7 is overwritten: its old page becomes invalid.
map_page-Remapped_example :
    Returns (λ r. Remapped moved_on 7 r.0 r.1) (map_page machine queue 7 moved_on)
map_page-Remapped_example =
    map_page-Remapped machine queue moved_on 7 queue-KeepsCounts moved_on-IsLaidOut
      moved_on-IsConsistent moved_on_seven moved_on-OnPage moved_on_free

-- The new page of the starting instance.
first_page :
    (get_new_page user_io ftl ≡ some (page_at ftl.wp, ftl))
    × (valid_ppa ftl (page_at ftl.wp) ≡ true)
    × (mapped_ppa (page_at ftl.wp) ≡ true)
first_page = get_new_page_valid ftl user_io ftl-IsLaidOut.slc ftl-OnPage

get_new_page_valid_example :
    (get_new_page user_io ftl ≡ some (page_at ftl.wp, ftl))
    × (valid_ppa ftl (page_at ftl.wp) ≡ true)
    × (mapped_ppa (page_at ftl.wp) ≡ true)
get_new_page_valid_example = get_new_page_valid ftl user_io ftl-IsLaidOut.slc ftl-OnPage

ppa2pgidx_total_example :
    ppa2pgidx ftl (page_at ftl.wp) ≡ some (pgidx ftl.ssd.sp slc_mode (page_at ftl.wp))
ppa2pgidx_total_example = ppa2pgidx_total ftl (page_at ftl.wp) ftl-IsLaidOut.slc first_page.1

ppa2pgidx_injective_example : SamePage (page_at ftl.wp) (record (page_at ftl.wp) { rsv = 1 })
unfolding valid_ppa ppa2pgidx
ppa2pgidx_injective_example =
    ppa2pgidx_injective ftl (page_at ftl.wp) (record (page_at ftl.wp) { rsv = 1 }) ftl-IsLaidOut.slc
      first_page.1 reserved same
  where
    reserved : valid_ppa ftl (record (page_at ftl.wp) { rsv = 1 }) ≡ true
    reserved = first_page.1

    same : ppa2pgidx ftl (page_at ftl.wp) ≡ ppa2pgidx ftl (record (page_at ftl.wp) { rsv = 1 })
    same = refl

ftl-AllCounted : AllCounted ftl
ftl-AllCounted = (Fresh-IsConsistent params ftl ftl-Fresh).counts

first-OnLine : OnLine ftl (page_at ftl.wp)
first-OnLine = valid_ppa-OnLine ftl (page_at ftl.wp) ftl-IsLaidOut first_page.1

mark_page_valid-AllCounted_example :
    Returns (Validated ftl (page_at ftl.wp)) (mark_page_valid (page_at ftl.wp) ftl)
mark_page_valid-AllCounted_example =
    mark_page_valid-AllCounted ftl (page_at ftl.wp) ftl-AllCounted first-OnLine first_free

validate_in_block-IsCounted_example :
    Returns
      (Accounted 2 pg_valid
        (get_blk ftl.ssd (page_at ftl.wp)).ipc
        ((get_blk ftl.ssd (page_at ftl.wp)).vpc + 1)
        (page_at ftl.wp)
        ftl.ssd)
      (validate_in_block 2 (page_at ftl.wp) ftl.ssd)
validate_in_block-IsCounted_example =
    validate_in_block-IsCounted 2 (page_at ftl.wp) ftl.ssd (omega arith)
      (init-IsCounted 2 params (page_at ftl.wp)) first_free

-- The page of logical page 7, once written.
old_page-Owned : Owned written 7 (written.maptbl 7)
unfolding written mapped_ppa ssd_init get_pg set_pg
old_page-Owned = written-Remapped.fits.owned 7 tt (omega arith) refl

written-IsLaidOut : IsLaidOut written
written-IsLaidOut = SameLayout-IsLaidOut ftl written written-Remapped.layout ftl-IsLaidOut

mark_page_invalid-AllCounted_example :
    Returns
      (Dropped written (written.maptbl 7))
      (mark_page_invalid queue (written.maptbl 7) written)
mark_page_invalid-AllCounted_example =
    mark_page_invalid-AllCounted queue written (written.maptbl 7) queue-KeepsCounts
      written-Remapped.fits.counts
      (valid_ppa-OnLine written (written.maptbl 7) written-IsLaidOut old_page-Owned.valid_address)
      old_page-Owned.valid_page

old_page-OnLine : OnLine written (written.maptbl 7)
old_page-OnLine =
    valid_ppa-OnLine written (written.maptbl 7) written-IsLaidOut old_page-Owned.valid_address

-- The pages of its block.
abbrev old_size : ℕ
old_size = pgs_per_blk_of written.ssd.sp (page_area written (written.maptbl 7))

invalidate_in_block-IsCounted_example :
    Returns
      (Accounted old_size pg_invalid
        ((get_blk written.ssd (written.maptbl 7)).ipc + 1)
        ((get_blk written.ssd (written.maptbl 7)).vpc - 1)
        (written.maptbl 7)
        written.ssd)
      (invalidate_in_block old_size (written.maptbl 7) written.ssd)
invalidate_in_block-IsCounted_example =
    invalidate_in_block-IsCounted old_size (written.maptbl 7) written.ssd old_page-OnLine.pg_in
      (written-Remapped.fits.counts.blocks (written.maptbl 7) old_page-OnLine.blocks_in)
      old_page-Owned.valid_page
