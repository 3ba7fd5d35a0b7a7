-- ===== src/Ftl/Index.antt =====
-- The index of a physical page, `ppa2pgidx`, within the tables.
use nvmevirt_slc_cache.Common.{
  ℕ, ◌+◌, ◌-◌, ◌*◌, ◌≤◌, ◌<◌, ◌≡◌, ◌⊎◌, inl, inr, sym, ◌∙◌, arith, true, false, ltb, ltb-cases,
  if◌then◌else◌, Bool-cases, radix-lt, radix_digits,
}
use nvmevirt_slc_cache.Params.{SsdParams}
use nvmevirt_slc_cache.Params.Geometry.{IsSlcGeometry}
use nvmevirt_slc_cache.Ppa.{Ppa}
use nvmevirt_slc_cache.Ftl.State.{slc_mode}
use nvmevirt_slc_cache.Ftl.Mapping.{pgidx}

-- The page within its plane.
abbrev page_in_plane : SsdParams → Ppa → ℕ
page_in_plane spp p =
    if ltb p.blk spp.tt_lines_slc
    then p.blk * spp.pgs_per_blk_slc + p.pg
    else spp.tt_lines_slc * spp.pgs_per_blk_slc
      + (p.blk - spp.tt_lines_slc) * spp.pgs_per_blk
      + p.pg

-- An address inside the array, page counts by the mode of its block.
pub record InArray (spp : SsdParams) (p : Ppa) : Type 0 where
  pub ch_in : p.ch < spp.nchs
  pub lun_in : p.lun < spp.luns_per_ch
  pub pl_in : p.pl < spp.pls_per_lun
  pub blk_in : p.blk < spp.blks_per_pl
  pub pg_in_slc : p.blk < spp.tt_lines_slc → p.pg < spp.pgs_per_blk_slc
  pub pg_in_tlc : spp.tt_lines_slc ≤ p.blk → p.pg < spp.pgs_per_blk

module _ (spp : SsdParams) (g : IsSlcGeometry spp) where
  page_in_plane-lt : (p : Ppa) → InArray spp p → page_in_plane spp p < spp.pgs_per_pl
  page_in_plane-lt p v = elim (ltb-cases p.blk spp.tt_lines_slc) [
    | inl (lt, slc) ↦ rw slc (
        omega (
          arith,
          g.plane,
          radix-lt p.blk p.pg spp.pgs_per_blk_slc spp.tt_lines_slc lt (v.pg_in_slc lt),
        ))
    | inr (le, tlc) ↦ rw tlc (
        omega (
          arith,
          g.plane,
          radix-lt (p.blk - spp.tt_lines_slc) p.pg spp.pgs_per_blk spp.tt_lines_tlc
              (omega (arith, g.lines_split, g.lines_are_blocks, v.blk_in)) (v.pg_in_tlc le),
        ))
  ]

  -- The pages of a plane are numbered without repetition.
  page_in_plane_injective :
      (p q : Ppa)
      → InArray spp p
      → InArray spp q
      → page_in_plane spp p ≡ page_in_plane spp q
      → (p.blk ≡ q.blk) × (p.pg ≡ q.pg)
  page_in_plane_injective p q v w e = go (ltb-cases p.blk slc) (ltb-cases q.blk slc)
    where
      slc : ℕ
      slc = spp.tt_lines_slc

      go :
          ((p.blk < slc) × (ltb p.blk slc ≡ true)) ⊎ ((slc ≤ p.blk) × (ltb p.blk slc ≡ false))
          → ((q.blk < slc) × (ltb q.blk slc ≡ true)) ⊎ ((slc ≤ q.blk) × (ltb q.blk slc ≡ false))
          → (p.blk ≡ q.blk) × (p.pg ≡ q.pg)
      go (inl (a, b)) (inl (c, d)) =
          radix_digits p.blk p.pg q.blk q.pg spp.pgs_per_blk_slc (v.pg_in_slc a) (w.pg_in_slc c)
            (rw (b, d) at e)
      go (inl (a, b)) (inr (c, d)) =
          let e' = rw (b, d) at e in
          absurd (omega (arith, radix-lt p.blk p.pg spp.pgs_per_blk_slc slc a (v.pg_in_slc a)))
      go (inr (a, b)) (inl (c, d)) =
          let e' = rw (b, d) at e in
          absurd (omega (arith, radix-lt q.blk q.pg spp.pgs_per_blk_slc slc c (w.pg_in_slc c)))
      go (inr (a, b)) (inr (c, d)) =
          let e' = rw (b, d) at e in
          let digits =
            radix_digits (p.blk - slc) p.pg (q.blk - slc) q.pg spp.pgs_per_blk (v.pg_in_tlc a)
              (w.pg_in_tlc c) (omega arith) in
          (omega (arith, digits.0), digits.1)

  -- In SLC mode the index is the place in the plane behind the planes, dies and channels before it.
  pgidx_digits :
      (p : Ppa)
      → pgidx spp slc_mode p
        ≡ p.ch * spp.pgs_per_ch
          + (p.lun * spp.pgs_per_lun + (p.pl * spp.pgs_per_pl + page_in_plane spp p))
  unfolding pgidx
  pgidx_digits p = elim (Bool-cases (ltb p.blk spp.tt_lines_slc)) [
    | inl e ↦ rw e (omega arith)
    | inr e ↦ rw e (omega arith)
  ]

  in_die : (p : Ppa) → InArray spp p → p.pl * spp.pgs_per_pl + page_in_plane spp p < spp.pgs_per_lun
  in_die p v = omega (
    arith,
    g.die,
    radix-lt p.pl (page_in_plane spp p) spp.pgs_per_pl spp.pls_per_lun v.pl_in
        (page_in_plane-lt p v),
  )

  in_channel :
      (p : Ppa)
      → InArray spp p
      → p.lun * spp.pgs_per_lun + (p.pl * spp.pgs_per_pl + page_in_plane spp p) < spp.pgs_per_ch
  in_channel p v =
      omega
        (arith, g.channel, radix-lt p.lun _ spp.pgs_per_lun spp.luns_per_ch v.lun_in (in_die p v))

  -- The index of a page inside the array lies inside the tables.
  pub pgidx-lt : (p : Ppa) → InArray spp p → pgidx spp slc_mode p < spp.tt_pgs
  pgidx-lt p v = omega (
    arith,
    g.drive,
    pgidx_digits p,
    radix-lt p.ch _ spp.pgs_per_ch spp.nchs v.ch_in (in_channel p v),
  )

  -- Two pages inside the array with the same index are the same page, up to the reserved bits.
  pub pgidx_injective :
      (p q : Ppa)
      → InArray spp p
      → InArray spp q
      → pgidx spp slc_mode p ≡ pgidx spp slc_mode q
      → (p.ch ≡ q.ch) × (p.lun ≡ q.lun) × (p.pl ≡ q.pl) × (p.blk ≡ q.blk) × (p.pg ≡ q.pg)
  pgidx_injective p q v w e =
      let top =
        radix_digits p.ch _ q.ch _ spp.pgs_per_ch (in_channel p v) (in_channel q w)
          (sym (pgidx_digits p) ∙ e ∙ pgidx_digits q) in
      let die = radix_digits p.lun _ q.lun _ spp.pgs_per_lun (in_die p v) (in_die q w) top.1 in
      let plane =
        radix_digits p.pl _ q.pl _ spp.pgs_per_pl (page_in_plane-lt p v) (page_in_plane-lt q w)
          die.1 in
      let page = page_in_plane_injective p q v w plane.1 in (top.0, die.0, plane.0, page.0, page.1)
