-- ===== src/Ftl/Boot.antt =====
-- `conv_init_ftl` sets an instance up: the lines, the first lines of the write pointers.
use nvmevirt_slc_cache.Common.{
  ℕ, zero, suc, ◌+◌, ◌-◌, ◌<◌, ◌≡◌, refl, sym, ap, ◌∙◌, arith, true, subst, ◌==◌, ==_iff,
  if◌then◌else◌, Returns, Option, none, some, ◌∷◌, ◌>>◌,
}
use nvmevirt_slc_cache.Params.{SsdParams}
use nvmevirt_slc_cache.Params.Geometry.{IsSlcGeometry}
use nvmevirt_slc_cache.Ppa.{unmapped_ppa, invalid_lpn}
use nvmevirt_slc_cache.Nand.{Machine, ssd_init}
use nvmevirt_slc_cache.Ftl.State.{slc_mode, tlc_mode, user_io, gc_io, ConvFtl, ConvParams}
use nvmevirt_slc_cache.Ftl.Lines.{init_lines, indices, fresh_lines}
use nvmevirt_slc_cache.Ftl.Advance.{prepare_write_pointer}
use nvmevirt_slc_cache.Ftl.Start.{conv_init_ftl, init_write_flow_control}
use nvmevirt_slc_cache.Ftl.Consistency.{IsLaidOut, IsConsistent, All}
use nvmevirt_slc_cache.Ftl.Fresh.{Fresh, Fresh-IsLaidOut, Fresh-IsConsistent}
use nvmevirt_slc_cache.Ftl.Prepare.{both, prepared, Fresh-prepared, prepare-first}

indices_first : (i n : ℕ) → 0 < n → indices i n ≡ i ∷ indices (i + 1) (n - 1)
indices_first i zero h = absurd (omega arith)
indices_first i (suc n) h = ap (λ (k : ℕ). i ∷ indices (i + 1) k) (omega arith)

-- The managers of both areas, all lines free.
abbrev with_lines : ConvFtl → ConvFtl
with_lines s = record s {
  lm = fresh_lines s.ssd.sp.tt_lines_tlc s.ssd.sp.tt_lines_slc;
  slm = fresh_lines s.ssd.sp.tt_lines_slc 0;
}

init_lines-slc :
    (s : ConvFtl)
    → s.slc_mode ≡ slc_mode
    → s.ssd.sp.tt_lines_slc + s.ssd.sp.tt_lines_tlc ≡ s.ssd.sp.tt_lines
    → init_lines s ≡ some (with_lines s)
unfolding init_lines
init_lines-slc s h k = rw (h, sum) refl
  where
    sum : (s.ssd.sp.tt_lines_tlc + s.ssd.sp.tt_lines_slc == s.ssd.sp.tt_lines) ≡ true
    sum = (==_iff _ _).1 (omega arith)

module _ (m : Machine) (old : ConvFtl) (cp : ConvParams) (spp : SsdParams) where
  -- The instance before its lines are set up.
  abbrev bare : ConvFtl
  bare = record old {
    cp = cp;
    ssd = ssd_init spp;
    slc_mode = if m.config.enable_slc_cache then slc_mode else tlc_mode;
    maptbl = λ _. unmapped_ppa;
    rmap = λ _. invalid_lpn;
  }

  with_lines-Fresh : m.config.enable_slc_cache ≡ true → Fresh spp (with_lines bare)
  unfolding fresh_lines ssd_init
  with_lines-Fresh e = record {
    flash = refl;
    cached = rw e refl;
    cache_lines = refl;
    unmapped = λ _. refl;
    no_valid = both _ (λ _. refl) (λ _. refl);
    no_invalid = both _ (λ _. refl) (λ _. refl);
  }

  -- The instance with both write pointers on the first lines of their areas.
  abbrev first_taken : ConvFtl
  first_taken = prepared (with_lines bare) user_io slc_mode 0 (indices 1 (spp.tt_lines_slc - 1))

  abbrev booted : ConvFtl
  booted = prepared first_taken gc_io tlc_mode 0 (indices 1 (spp.tt_lines_tlc - 1))

  conv_init_ftl-booted :
      m.config.enable_slc_cache ≡ true
      → IsSlcGeometry spp
      → 0 < spp.tt_lines_slc
      → 0 < spp.tt_lines_tlc
      → conv_init_ftl m old cp (ssd_init spp) ≡ some (init_write_flow_control booted)
  unfolding conv_init_ftl fresh_lines ssd_init
  conv_init_ftl-booted e g slc tlc =
      ap
        (λ (o : Option ConvFtl). elim o [
          | none ↦ none
          | some t ↦ finish ((prepare_write_pointer user_io >> prepare_write_pointer gc_io) t)
        ])
        (init_lines-slc bare (rw e refl) g.lines_split)
      ∙ ap finish (
          ap
            (λ (o : Option (Unit {0} × ConvFtl)). elim o [
              | none ↦ none
              | some (_, t) ↦ prepare_write_pointer gc_io t
            ])
            (prepare-first (with_lines bare) user_io 0 (indices 1 (spp.tt_lines_slc - 1))
              (rw e refl) (indices_first 0 spp.tt_lines_slc slc))
          ∙ prepare-first first_taken gc_io 0 (indices 1 (spp.tt_lines_tlc - 1)) (rw e refl)
              (indices_first 0 spp.tt_lines_tlc tlc))
    where
      finish : Option (Unit {0} × ConvFtl) → Option ConvFtl
      finish o = elim o [ none ↦ none | some (_, u) ↦ some (init_write_flow_control u) ]

  booted-Fresh : m.config.enable_slc_cache ≡ true → Fresh spp (init_write_flow_control booted)
  unfolding init_write_flow_control
  booted-Fresh e = record {
    flash = f.flash;
    cached = f.cached;
    cache_lines = f.cache_lines;
    unmapped = f.unmapped;
    no_valid = both _ (f.no_valid slc_mode) (f.no_valid tlc_mode);
    no_invalid = both _ (f.no_invalid slc_mode) (f.no_invalid tlc_mode);
  }
    where
      f : Fresh spp booted
      f = Fresh-prepared spp first_taken gc_io tlc_mode 0 (indices 1 (spp.tt_lines_tlc - 1)) (
          Fresh-prepared spp (with_lines bare) user_io slc_mode 0 (indices 1 (spp.tt_lines_slc - 1))
            (with_lines-Fresh e))

  -- For a consistent geometry with the cache, one plane in each die and at least one line in each
  -- area, an instance starts: no assertion fails, and the tables, the page states and the counts
  -- of blocks and lines are consistent.
  pub conv_init_ftl-IsConsistent :
      m.config.enable_slc_cache ≡ true
      → IsSlcGeometry spp
      → spp.pls_per_lun ≡ 1
      → 0 < spp.tt_lines_slc
      → 0 < spp.tt_lines_tlc
      → Returns (λ s. IsLaidOut s × IsConsistent All s) (conv_init_ftl m old cp (ssd_init spp))
  conv_init_ftl-IsConsistent e g one slc tlc =
      subst (Returns (λ s. IsLaidOut s × IsConsistent All s))
        (sym (conv_init_ftl-booted e g slc tlc))
        (
          Fresh-IsLaidOut spp (init_write_flow_control booted) g one (booted-Fresh e),
          Fresh-IsConsistent spp (init_write_flow_control booted) (booted-Fresh e),
        )
