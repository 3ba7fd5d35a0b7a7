-- ===== src/Ftl/Release.antt =====
-- `drop_old`, the first half of `map_page`: a logical page gives up its physical page.
use nvmevirt_slc_cache.Common.{
  ℕ, ◌<◌, ◌≡◌, inl, inr, sym, ap, ◌∙◌, true, subst, Bool-cases, update, Returns, Returns-elim,
  Option, none, some,
}
use nvmevirt_slc_cache.Params.{SsdParams}
use nvmevirt_slc_cache.Ppa.{Ppa, mapped_ppa, invalid_lpn}
use nvmevirt_slc_cache.Nand.{Ssd, pg_free, pg_invalid, Machine, get_pg}
use nvmevirt_slc_cache.Nand.Access.{same_pg}
use nvmevirt_slc_cache.Ftl.State.{slc_mode, ConvFtl, Pqueue}
use nvmevirt_slc_cache.Ftl.Mapping.{pgidx}
use nvmevirt_slc_cache.Ftl.Write.{drop_old}
use nvmevirt_slc_cache.Ftl.Blocks.{status_of}
use nvmevirt_slc_cache.Ftl.LineSums.{AllCounted, InBlocks}
use nvmevirt_slc_cache.Ftl.Relines.{Kept}
use nvmevirt_slc_cache.Ftl.Queue.{KeepsCounts}
use nvmevirt_slc_cache.Ftl.MarkInvalid.{Dropped, mark_page_invalid-AllCounted}
use nvmevirt_slc_cache.Ftl.Consistency.{
  IsLaidOut, IsConsistent, Owned, All, valid_ppa-OnLine, valid_ppa-InBlocks,
}
use nvmevirt_slc_cache.Ftl.Retag.{
  Retagged, SameLayout, SameLayout-IsLaidOut, SameLayout-valid_ppa, same_pg-SamePage,
}
use nvmevirt_slc_cache.Ftl.Handover.{Not, release, status_same, free-≢-valid}
use nvmevirt_slc_cache.Ftl.Touch.{
  SameLayout-trans, set_rmap_ent-update, AllCounted-tables, touch, touch-Kept, touch-ssd,
  touch-AllCounted,
}

-- What dropping the old page of `lpn` leaves.
pub record Released (s : ConvFtl) (lpn : ℕ) (t : ConvFtl) : Type 0 where
  pub consistent : IsConsistent (Not lpn) t
  pub same_layout : SameLayout s t
  pub same_table : t.maptbl ≡ s.maptbl
  pub same_wp : t.wp ≡ s.wp
  pub kept_free : (q : Ppa) → status_of s.ssd q ≡ pg_free → status_of t.ssd q ≡ pg_free

pub Kept-SameLayout : (s t : ConvFtl) → Kept s t → SameLayout s t
Kept-SameLayout s t k = record {
  layout_mode = k.kept_mode;
  layout_lines = k.slc_count;
  layout_params = k.params_kept;
}

-- The page's entry of the reverse map without an owner, the line just modified.
abbrev dropped_state : Machine → Ppa → ConvFtl → ConvFtl
dropped_state m p t =
    touch m p (record t { rmap = update t.rmap (pgidx t.ssd.sp slc_mode p) invalid_lpn })

dropped_state-Retagged :
    (m : Machine) (s t : ConvFtl) (p : Ppa)
    → Dropped s p (tt, t)
    → Retagged s p pg_invalid invalid_lpn (dropped_state m p t)
unfolding get_pg
dropped_state-Retagged m s t p (counts, marked, kept) = record {
  layout = SameLayout-trans s t (dropped_state m p t) (Kept-SameLayout s t kept) (record {
    layout_mode = after.kept_mode;
    layout_lines = after.slc_count;
    layout_params = after.params_kept;
  });
  statuses = λ q. ap (λ (x : Ssd). status_of x q) (touch-ssd m p v) ∙ marked.pages q;
  owners =
      after.rmap
      ∙ ap (λ (x : SsdParams). update t.rmap (pgidx x slc_mode p) invalid_lpn) kept.params_kept
      ∙ ap (λ (x : ℕ → ℕ). update x (pgidx s.ssd.sp slc_mode p) invalid_lpn) kept.rmap;
}
  where
    v : ConvFtl
    v = record t { rmap = update t.rmap (pgidx t.ssd.sp slc_mode p) invalid_lpn }

    after : Kept v (touch m p v)
    after = touch-Kept m p v

dropped_state-Released :
    (m : Machine) (s t : ConvFtl) (lpn : ℕ)
    → IsLaidOut s
    → IsConsistent All s
    → lpn < s.ssd.sp.tt_pgs
    → mapped_ppa (s.maptbl lpn) ≡ true
    → Dropped s (s.maptbl lpn) (tt, t)
    → Released s lpn (dropped_state m (s.maptbl lpn) t)
dropped_state-Released m s t lpn g c l h d = record {
  consistent = release s w lpn g counted l c h retagged (after.maptbl ∙ d.2.maptbl);
  same_layout = retagged.layout;
  same_table = after.maptbl ∙ d.2.maptbl;
  same_wp = after.wp ∙ d.2.wp;
  kept_free = λ q f. retagged.statuses q ∙ (elim (Bool-cases (same_pg q p)) [
    | inl e ↦
        absurd (free-≢-valid f (status_same s.ssd q p (same_pg-SamePage q p e) ∙ own.valid_page))
    | inr e ↦ (rw e) ∙ f
  ]);
}
  where
    p : Ppa
    p = s.maptbl lpn

    v : ConvFtl
    v = record t { rmap = update t.rmap (pgidx t.ssd.sp slc_mode p) invalid_lpn }

    w : ConvFtl
    w = dropped_state m p t

    own : Owned s lpn p
    own = c.owned lpn tt l h

    after : Kept v w
    after = touch-Kept m p v

    retagged : Retagged s p pg_invalid invalid_lpn w
    retagged = dropped_state-Retagged m s t p d

    counted : AllCounted w
    counted = touch-AllCounted m p v (AllCounted-tables t t.maptbl v.rmap d.0) (
        subst (λ (x : SsdParams). InBlocks x p) (sym d.2.params_kept)
          (valid_ppa-InBlocks s p g own.valid_address))

pub drop_old-Released :
    (m : Machine) (pq : Pqueue) (s : ConvFtl) (lpn : ℕ)
    → KeepsCounts pq
    → IsLaidOut s
    → IsConsistent All s
    → lpn < s.ssd.sp.tt_pgs
    → mapped_ppa (s.maptbl lpn) ≡ true
    → Returns (λ r. Released s lpn r.1) (drop_old m pq (s.maptbl lpn) s)
unfolding drop_old
drop_old-Released m pq s lpn laws g c l h =
    Returns-elim (Dropped s p) (λ r. Released s lpn r.1) _ _
      (mark_page_invalid-AllCounted pq s p laws c.counts (valid_ppa-OnLine s p g own.valid_address)
        own.valid_page)
      (λ u t d.
        subst (λ (o : Option (Unit {0} × ConvFtl)). Returns (λ r. Released s lpn r.1) (go_on o))
          (sym (
            set_rmap_ent-update t p invalid_lpn (SameLayout-IsLaidOut s t (layout t d) g)
              (SameLayout-valid_ppa s t p (layout t d) ∙ own.valid_address)))
          (dropped_state-Released m s t lpn g c l h d))
  where
    p : Ppa
    p = s.maptbl lpn

    own : Owned s lpn p
    own = c.owned lpn tt l h

    layout : (t : ConvFtl) → Dropped s p (tt, t) → SameLayout s t
    layout t d = Kept-SameLayout s t d.2

    go_on : Option (Unit {0} × ConvFtl) → Option (Unit {0} × ConvFtl)
    go_on o = elim o [ none ↦ none | some (_, v) ↦ some (tt, touch m p v) ]
