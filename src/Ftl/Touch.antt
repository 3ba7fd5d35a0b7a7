-- ===== src/Ftl/Touch.antt =====
-- The parts of `map_page` beside the marking: the reverse map, the clock and the line's time.
use nvmevirt_slc_cache.Common.{
  ℕ, ◌+◌, ◌≡◌, inl, inr, refl, sym, ap, ◌∙◌, arith, true, subst, Bool-cases, update, Option, none,
  some,
}
use nvmevirt_slc_cache.Ppa.{Ppa}
use nvmevirt_slc_cache.Nand.{Ssd, Machine, get_blk, get_pg}
use nvmevirt_slc_cache.Nand.Access.{same_pg}
use nvmevirt_slc_cache.Ftl.State.{
  slc_mode, ConvFtl, LineMgmt, line_at, lm_of, set_line, pgs_per_blk_of,
}
use nvmevirt_slc_cache.Ftl.Mapping.{page_area, pgidx, valid_ppa, get_line, set_rmap_ent}
use nvmevirt_slc_cache.Ftl.Addresses.{ppa2pgidx_total}
use nvmevirt_slc_cache.Ftl.Blocks.{Marked, status_of}
use nvmevirt_slc_cache.Ftl.LineSums.{AllCounted, InBlocks}
use nvmevirt_slc_cache.Ftl.Relines.{Kept, set_lm-Kept, ssd-set_lm, set_lm-Relined}
use nvmevirt_slc_cache.Ftl.Recount.{recount}
use nvmevirt_slc_cache.Ftl.Counts.{IsCounted}
use nvmevirt_slc_cache.Ftl.Consistency.{IsLaidOut}
use nvmevirt_slc_cache.Ftl.Retag.{SameLayout, same_pg-SamePage}
use nvmevirt_slc_cache.Ftl.Handover.{status_same}

pub SameLayout-trans : (s t u : ConvFtl) → SameLayout s t → SameLayout t u → SameLayout s u
SameLayout-trans s t u a b = record {
  layout_mode = b.layout_mode ∙ a.layout_mode;
  layout_lines = b.layout_lines ∙ a.layout_lines;
  layout_params = b.layout_params ∙ a.layout_params;
}

-- For a valid address the reverse map is written.
pub set_rmap_ent-update :
    (t : ConvFtl) (p : Ppa) (x : ℕ)
    → IsLaidOut t
    → valid_ppa t p ≡ true
    → set_rmap_ent x p t
      ≡ some (tt, record t { rmap = update t.rmap (pgidx t.ssd.sp slc_mode p) x })
unfolding set_rmap_ent
set_rmap_ent-update t p x g v = ap (λ (o : Option ℕ). write o) (ppa2pgidx_total t p g.slc v)
  where
    write : Option ℕ → Option (Unit {0} × ConvFtl)
    write o = elim o [ none ↦ none | some i ↦ some (tt, record t { rmap = update t.rmap i x }) ]

-- The tables are no part of the counts.
pub AllCounted-tables :
    (s : ConvFtl) (maptbl : ℕ → Ppa) (rmap : ℕ → ℕ)
    → AllCounted s
    → AllCounted (record s { maptbl = maptbl; rmap = rmap })
unfolding get_line
AllCounted-tables s maptbl rmap c = record {
  blocks = c.blocks;
  lines = λ b l.
      let k = c.lines b l in record { line_valid = k.line_valid; line_invalid = k.line_invalid };
}

-- The line of a page was just modified.
abbrev pub touch : Machine → Ppa → ConvFtl → ConvFtl
touch m p s =
    let r = get_line s p in
    set_line (record s { ssd = record (s.ssd) { reads = s.ssd.reads + 1 } }) r
      (record (line_at s r) { mtime = m.ktime_get_ns s.ssd.reads })

-- Reading the clock marks nothing.
read_clock-Marked :
    (d : Ssd) (p : Ppa) (n : ℕ)
    → Marked d p (status_of d p) (get_blk d p).ipc (get_blk d p).vpc (record d { reads = n })
unfolding get_blk get_pg
read_clock-Marked d p n = record {
  params = refl;
  pages = λ q. elim (Bool-cases (same_pg q p)) [
    | inl h ↦ rw h (status_same d q p (same_pg-SamePage q p h))
    | inr h ↦ rw h
  ];
  invalid_here = refl;
  valid_here = refl;
  invalid_elsewhere = λ q h. refl;
  blocks_elsewhere = λ q h. refl;
  erases_here = refl;
  size_here = refl;
  valid_elsewhere = λ q h. refl;
}

module _ (m : Machine) (p : Ppa) (s : ConvFtl) where
  abbrev touched : LineMgmt
  touched =
      let n = lm_of s (get_line s p).area in
      record n {
        lines =
            update n.lines (get_line s p).idx
              (record (line_at s (get_line s p)) { mtime = m.ktime_get_ns s.ssd.reads });
      }

  abbrev read : Ssd
  read = record (s.ssd) { reads = s.ssd.reads + 1 }

  pub touch-Kept : Kept s (touch m p s)
  touch-Kept = set_lm-Kept s read (get_line s p).area touched refl refl

  pub touch-ssd : (touch m p s).ssd ≡ read
  touch-ssd = ssd-set_lm s read (get_line s p).area touched

  pub touch-AllCounted : AllCounted s → InBlocks s.ssd.sp p → AllCounted (touch m p s)
  unfolding get_blk get_line
  touch-AllCounted all v =
      recount s (touch m p s) p all v
        (subst (Marked s.ssd p (status_of s.ssd p) (get_blk s.ssd p).ipc (get_blk s.ssd p).vpc)
          (sym touch-ssd) (read_clock-Marked s.ssd p (s.ssd.reads + 1)))
        (set_lm-Relined s read p touched (line_at s (get_line s p)).ipc
          (line_at s (get_line s p)).vpc
          (record {
            tt_lines = refl;
            ipc_here = ground arith;
            vpc_here = ground arith;
            ipc_elsewhere = λ j ne. ground arith;
            vpc_elsewhere = λ j ne. ground arith;
          }))
        (subst (λ (x : Ssd). IsCounted (pgs_per_blk_of s.ssd.sp (page_area s p)) (get_blk x p))
          (sym touch-ssd) (all.blocks p v))
        refl refl
