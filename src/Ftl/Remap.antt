-- ===== src/Ftl/Remap.antt =====
-- `map_page`, the tables' part of a round of `conv_write`: the logical page moves to the page at the
-- write pointer.
use nvmevirt_slc_cache.Common.{
  ℕ, ◌<◌, ◌≡◌, refl, sym, ap, ◌∙◌, Bool, true, false, subst, update, true≢false, Returns,
  Returns-elim, Returns-mono, Returns-step, some, St, ◌>>=◌, ◌>>◌, return, lt→ltb, when,
}
use nvmevirt_slc_cache.Params.{SsdParams}
use nvmevirt_slc_cache.Ppa.{Ppa, mapped_ppa}
use nvmevirt_slc_cache.Nand.{pg_free, Machine}
use nvmevirt_slc_cache.Ftl.State.{slc_mode, WritePointer, ConvFtl, Pqueue, user_io}
use nvmevirt_slc_cache.Ftl.Mapping.{pgidx, valid_ppa, set_rmap_ent, set_maptbl_ent, get_new_page}
use nvmevirt_slc_cache.Ftl.Pages.{mark_page_valid}
use nvmevirt_slc_cache.Ftl.Write.{drop_old, map_page}
use nvmevirt_slc_cache.Ftl.Addresses.{OnPage, page_at, get_new_page_valid}
use nvmevirt_slc_cache.Ftl.Blocks.{status_of}
use nvmevirt_slc_cache.Ftl.LineSums.{AllCounted}
use nvmevirt_slc_cache.Ftl.Queue.{KeepsCounts}
use nvmevirt_slc_cache.Ftl.MarkValid.{OnLine, Validated, mark_page_valid-AllCounted}
use nvmevirt_slc_cache.Ftl.Consistency.{IsLaidOut, IsConsistent, All, valid_ppa-OnLine}
use nvmevirt_slc_cache.Ftl.Retag.{SameLayout, SameLayout-IsLaidOut, SameLayout-valid_ppa}
use nvmevirt_slc_cache.Ftl.Handover.{Not, acquire}
use nvmevirt_slc_cache.Ftl.Touch.{SameLayout-trans, set_rmap_ent-update, AllCounted-tables}
use nvmevirt_slc_cache.Ftl.Release.{Released, Kept-SameLayout, drop_old-Released}

-- What the mapping of a logical page to the new page leaves.
pub record Remapped (s : ConvFtl) (lpn : ℕ) (p : Ppa) (t : ConvFtl) : Type 0 where
  pub address : p ≡ page_at s.wp
  pub fits : IsConsistent All t
  pub table : t.maptbl ≡ update s.maptbl lpn (page_at s.wp)
  pub layout : SameLayout s t
  pub pointer : t.wp ≡ s.wp

-- The second half of `map_page`: the new page, in both tables and in the flash.
abbrev install : ℕ → St ConvFtl Ppa
install lpn = do
  new ← get_new_page user_io
  set_maptbl_ent lpn new
  set_rmap_ent lpn new
  mark_page_valid new
  return new

set_maptbl_ent-update :
    (s : ConvFtl) (lpn : ℕ) (p : Ppa)
    → lpn < s.ssd.sp.tt_pgs
    → set_maptbl_ent lpn p s ≡ some (tt, record s { maptbl = update s.maptbl lpn p })
unfolding set_maptbl_ent
set_maptbl_ent-update s lpn p h = rw (lt→ltb _ _ h)

install-Remapped :
    (s : ConvFtl) (lpn : ℕ)
    → IsLaidOut s
    → IsConsistent (Not lpn) s
    → lpn < s.ssd.sp.tt_pgs
    → OnPage s.ssd.sp s.wp
    → status_of s.ssd (page_at s.wp) ≡ pg_free
    → Returns (λ r. Remapped s lpn r.0 r.1) (install lpn s)
install-Remapped s lpn g c l o f = Returns-step _ _ _ fresh.0 (
    Returns-step _ _ _ (set_maptbl_ent-update s lpn p l) (
      Returns-step _ _ _ (set_rmap_ent-update t p lpn g' v') (
        Returns-elim (Validated u p) _ _ _ (mark_page_valid-AllCounted u p counted line f)
          (λ _ w d. written w d))))
  where
    p : Ppa
    p = page_at s.wp

    fresh : (get_new_page user_io s ≡ some (p, s)) × (valid_ppa s p ≡ true) × (mapped_ppa p ≡ true)
    fresh = get_new_page_valid s user_io g.slc o

    t : ConvFtl
    t = record s { maptbl = update s.maptbl lpn p }

    u : ConvFtl
    u = record t { rmap = update s.rmap (pgidx s.ssd.sp slc_mode p) lpn }

    same : SameLayout s u
    same = record { layout_mode = refl; layout_lines = refl; layout_params = refl }

    g' : IsLaidOut t
    g' =
        SameLayout-IsLaidOut s t
          (record { layout_mode = refl; layout_lines = refl; layout_params = refl }) g

    v' : valid_ppa t p ≡ true
    v' =
        SameLayout-valid_ppa s t p
          (record { layout_mode = refl; layout_lines = refl; layout_params = refl })
        ∙ fresh.1

    line : OnLine u p
    line =
        valid_ppa-OnLine u p (SameLayout-IsLaidOut s u same g)
          (SameLayout-valid_ppa s u p same ∙ fresh.1)

    counted : AllCounted u
    counted = AllCounted-tables s t.maptbl u.rmap c.counts

    written : (w : ConvFtl) → Validated u p (tt, w) → Remapped s lpn p w
    written w d =
        let layout : SameLayout s w = SameLayout-trans s u w same (Kept-SameLayout u w d.2) in
        record {
          address = refl;
          fits =
              acquire s w lpn g d.0 l p c fresh.1 fresh.2 f
                (record { layout = layout; statuses = d.1.pages; owners = d.2.rmap }) d.2.maptbl;
          table = d.2.maptbl;
          layout = layout;
          pointer = d.2.wp;
        }

-- A logical page without a page owns none.
unmapped-IsConsistent :
    (s : ConvFtl) (lpn : ℕ)
    → IsConsistent All s
    → mapped_ppa (s.maptbl lpn) ≡ false
    → IsConsistent (Not lpn) s
unmapped-IsConsistent s lpn c h = record {
  counts = c.counts;
  owned = λ l _. c.owned l tt;
  mapped = λ q v k.
      let m = (c.mapped q v k).1 in
      ((λ e. true≢false (sym m.is_mapped ∙ ap (λ (x : ℕ). mapped_ppa (s.maptbl x)) e ∙ h)), m);
}

-- What `install` does, seen from before the old page was dropped.
from :
    (s t : ConvFtl) (lpn : ℕ)
    → Released s lpn t
    → (p : Ppa) (u : ConvFtl) → Remapped t lpn p u
    → Remapped s lpn p u
from s t lpn r p u k = record {
  address = k.address ∙ ap page_at r.same_wp;
  fits = k.fits;
  table =
      k.table
      ∙ ap (λ (x : ℕ → Ppa). update x lpn (page_at t.wp)) r.same_table
      ∙ ap (λ (x : WritePointer). update s.maptbl lpn (page_at x)) r.same_wp;
  layout = SameLayout-trans s t u r.same_layout k.layout;
  pointer = k.pointer ∙ r.same_wp;
}

-- In a consistent instance, with a queue whose operations keep counts and a write pointer on a
-- free page, a logical page below tt_pgs is mapped anew, whether it had a page or not: no
-- assertion fails, it gets the page at the write pointer, every other logical page keeps its
-- address, and the tables, the page states and the counts of blocks and lines are consistent
-- again: every mapped logical page has a valid page that the reverse map names as its own, and
-- every valid page is that of a logical page.
pub map_page-Remapped :
    (m : Machine) (pq : Pqueue) (s : ConvFtl) (lpn : ℕ)
    → KeepsCounts pq
    → IsLaidOut s
    → IsConsistent All s
    → lpn < s.ssd.sp.tt_pgs
    → OnPage s.ssd.sp s.wp
    → status_of s.ssd (page_at s.wp) ≡ pg_free
    → Returns (λ r. Remapped s lpn r.0 r.1) (map_page m pq lpn s)
unfolding map_page
map_page-Remapped m pq s lpn laws g c l o f =
    Returns-elim (λ r. Released s lpn r.1) (λ r. Remapped s lpn r.0 r.1) _ _
      (old_page (mapped_ppa (s.maptbl lpn)) refl)
      (λ _ t r.
        Returns-mono _ (λ x. Remapped s lpn x.0 x.1) (λ x. from s t lpn r x.0 x.1) (install lpn t)
          (install-Remapped t lpn (SameLayout-IsLaidOut s t r.same_layout g) r.consistent
            (subst (λ (x : SsdParams). lpn < x.tt_pgs) (sym r.same_layout.layout_params) l)
            (subst (λ (x : SsdParams). OnPage x t.wp) (sym r.same_layout.layout_params)
              (subst (OnPage s.ssd.sp) (sym r.same_wp) o))
            (subst (λ (x : WritePointer). status_of t.ssd (page_at x) ≡ pg_free) (sym r.same_wp)
              (r.kept_free (page_at s.wp) f))))
  where
    old_page :
        (b : Bool)
        → mapped_ppa (s.maptbl lpn) ≡ b
        → Returns (λ r. Released s lpn r.1) (when b (drop_old m pq (s.maptbl lpn)) s)
    old_page true h = drop_old-Released m pq s lpn laws g c l h
    old_page false h = record {
      consistent = unmapped-IsConsistent s lpn c h;
      same_layout = record { layout_mode = refl; layout_lines = refl; layout_params = refl };
      same_table = refl;
      same_wp = refl;
      kept_free = λ q k. k;
    }
