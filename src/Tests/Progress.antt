-- ===== src/Tests/Progress.antt =====
-- The write pointer of the starting instance moves to the next die; a block is given back.
use nvmevirt_slc_cache.Common.{ℕ, zero, suc, ◌<◌, ◌≡◌, refl, arith, Returns}
use nvmevirt_slc_cache.Nand.{ssd_init, get_blk, get_pg}
use nvmevirt_slc_cache.Ftl.{user_io, slc_mode}
use nvmevirt_slc_cache.Ftl.Advance.{advance_write_pointer}
use nvmevirt_slc_cache.Ftl.Fresh.{Fresh-IsConsistent}
use nvmevirt_slc_cache.Ftl.Onward.{OnArea}
use nvmevirt_slc_cache.Ftl.Progress.{Went, advance_write_pointer-Went}
use nvmevirt_slc_cache.Tests.Params.{params}
use nvmevirt_slc_cache.Tests.Instance.{queue, queue-KeepsCounts, ftl, ftl-Fresh, ftl-IsLaidOut}
use nvmevirt_slc_cache.Tests.Mapping.{ftl-OnPage, written}
use nvmevirt_slc_cache.Nand.{set_pg}
use nvmevirt_slc_cache.Ftl.Pages.{mark_block_free}
use nvmevirt_slc_cache.Ftl.Freed.{Freed, mark_block_free-Freed}

ftl-OnArea : OnArea ftl.ssd.sp slc_mode ftl.wp
unfolding ssd_init
ftl-OnArea = record { page = ftl-OnPage; blk_of_area = omega arith }

wordlines : 0 < ftl.ssd.sp.pgs_per_oneshotpg_slc
unfolding ssd_init
wordlines = omega arith

advance_write_pointer-Went_example :
    Returns (λ r. Went ftl user_io r.1) (advance_write_pointer queue user_io ftl)
unfolding ssd_init
advance_write_pointer-Went_example =
    advance_write_pointer-Went queue ftl user_io queue-KeepsCounts ftl-IsLaidOut
      (Fresh-IsConsistent params ftl ftl-Fresh) ftl-OnArea wordlines (λ e. absurd (omega arith))

-- The block that holds the page of logical page 7 is erased.
mark_block_free-Freed_example :
    Returns (λ r. Freed written (written.maptbl 7) r.1) (mark_block_free (written.maptbl 7) written)
unfolding written ssd_init set_pg get_pg
mark_block_free-Freed_example =
    mark_block_free-Freed written (written.maptbl 7) refl (λ j l. sectors j l)
  where
    sectors : (j : ℕ) → j < 2 → ((get_blk written.ssd (written.maptbl 7)).pg j).nsecs ≡ 8
    sectors zero l = refl
    sectors (suc zero) l = refl
    sectors (suc (suc j)) l = absurd (omega arith)
