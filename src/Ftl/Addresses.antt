-- ===== src/Ftl/Addresses.antt =====
-- Valid addresses of an instance and their indices.
use nvmevirt_slc_cache.Common.{
  ℕ, ◌^◌, ◌≤◌, ◌<◌, ◌≡◌, inl, inr, sym, ◌∙◌, arith, true, some, ◌==◌, lt→ltb, ltb-cases, u8, u16,
}
use mathlib.Core.Option.{some-injective}
use nvmevirt_slc_cache.Params.{SsdParams}
use nvmevirt_slc_cache.Params.Geometry.{IsSlcGeometry}
use nvmevirt_slc_cache.Ppa.{Ppa, mapped_ppa}
use nvmevirt_slc_cache.Ftl.State.{slc_mode, IoType, ConvFtl, WritePointer, get_wp}
use nvmevirt_slc_cache.Ftl.Mapping.{pgidx, ppa2pgidx, valid_ppa, get_new_page}
use nvmevirt_slc_cache.Ftl.Index.{InArray, pgidx-lt, pgidx_injective}

-- An instance with the SLC cache, as `conv_init_ftl` leaves it.
pub record IsSlcFtl (s : ConvFtl) : Type 0 where
  pub mode : s.slc_mode ≡ slc_mode
  pub lines : s.slm.tt_lines ≡ s.ssd.sp.tt_lines_slc
  pub geometry : IsSlcGeometry s.ssd.sp

-- Two addresses of one page; the reserved bits are no part of it.
abbrev pub SamePage : Ppa → Ppa → Type 0
SamePage p q = (p.ch ≡ q.ch) × (p.lun ≡ q.lun) × (p.pl ≡ q.pl) × (p.blk ≡ q.blk) × (p.pg ≡ q.pg)

pub valid_ppa-InArray :
    (s : ConvFtl) (p : Ppa) → IsSlcFtl s → valid_ppa s p ≡ true → InArray s.ssd.sp p
unfolding valid_ppa
valid_ppa-InArray s p f h = record {
  ch_in = ground arith;
  lun_in = ground arith;
  pl_in = ground arith;
  blk_in = ground arith;
  pg_in_slc = λ a. ground (arith, f.mode, f.lines);
  pg_in_tlc = λ a. ground (arith, f.mode, f.lines);
}

ppa2pgidx-InArray :
    (s : ConvFtl) (p : Ppa)
    → IsSlcFtl s
    → InArray s.ssd.sp p
    → ppa2pgidx s p ≡ some (pgidx s.ssd.sp slc_mode p)
unfolding ppa2pgidx
ppa2pgidx-InArray s p f v =
    rw (f.mode, lt→ltb _ _ (pgidx-lt s.ssd.sp f.geometry p v))
      (elim (ltb-cases p.blk s.ssd.sp.tt_lines_slc) [
        | inl (a, e) ↦ rw (e, lt→ltb _ _ (v.pg_in_slc a))
        | inr (a, e) ↦ rw e
      ])

-- In an instance with the cache, for an address that `valid_ppa` accepts the assertions of
-- `ppa2pgidx` hold.
pub ppa2pgidx_total :
    (s : ConvFtl) (p : Ppa)
    → IsSlcFtl s
    → valid_ppa s p ≡ true
    → ppa2pgidx s p ≡ some (pgidx s.ssd.sp slc_mode p)
ppa2pgidx_total s p f h = ppa2pgidx-InArray s p f (valid_ppa-InArray s p f h)

-- In an instance with the cache the reverse map is never shared: two addresses that `valid_ppa`
-- accepts and that have one index are addresses of one page, across the blocks of both areas.
pub ppa2pgidx_injective :
    (s : ConvFtl) (p q : Ppa)
    → IsSlcFtl s
    → valid_ppa s p ≡ true
    → valid_ppa s q ≡ true
    → ppa2pgidx s p ≡ ppa2pgidx s q
    → SamePage p q
ppa2pgidx_injective s p q f h k e =
    pgidx_injective s.ssd.sp f.geometry p q (valid_ppa-InArray s p f h) (valid_ppa-InArray s q f k)
      (some-injective _ _ (sym (ppa2pgidx_total s p f h) ∙ e ∙ ppa2pgidx_total s q f k))

-- A write pointer that stands on a page of the array; the array fits the fields of an address.
pub record OnPage (spp : SsdParams) (w : WritePointer) : Type 0 where
  pub ch_in : w.ch < spp.nchs
  pub lun_in : w.lun < spp.luns_per_ch
  pub pl_zero : w.pl ≡ 0
  pub planes : 0 < spp.pls_per_lun
  pub blk_in : w.blk < spp.blks_per_pl
  pub pg_in_slc : w.blk < spp.tt_lines_slc → w.pg < spp.pgs_per_blk_slc
  pub pg_in_tlc : spp.tt_lines_slc ≤ w.blk → w.pg < spp.pgs_per_blk
  pub few_channels : spp.nchs < 2 ^ 8
  pub few_dies : spp.luns_per_ch ≤ 2 ^ 8
  pub few_blocks : spp.blks_per_pl ≤ 2 ^ 16
  pub few_pages : spp.pgs_per_blk ≤ 2 ^ 16
  pub few_pages_slc : spp.pgs_per_blk_slc ≤ 2 ^ 16

wp_page_in : (s : ConvFtl) (w : WritePointer) → OnPage s.ssd.sp w → w.pg < 2 ^ 16
wp_page_in s w o = elim (ltb-cases w.blk s.ssd.sp.tt_lines_slc) [
  | inl (a, _) ↦ omega (arith, o.pg_in_slc a)
  | inr (a, _) ↦ omega (arith, o.pg_in_tlc a)
]

-- The address at which a write pointer stands.
abbrev pub page_at : WritePointer → Ppa
page_at w = record { pg = w.pg; blk = w.blk; pl = w.pl; lun = w.lun; ch = w.ch; rsv = 0 }

get_new_page_uncut :
    (s : ConvFtl) (io : IoType)
    → OnPage s.ssd.sp (get_wp s io)
    → get_new_page io s ≡ some (page_at (get_wp s io), s)
unfolding get_new_page
get_new_page_uncut s io o = rw (
  cut8 w.ch (omega arith),
  cut8 w.lun (omega arith),
  cut8 w.pl (omega arith),
  cut16 w.blk (omega arith),
  cut16 w.pg (wp_page_in s w o),
  plane,
)
  where
    w : WritePointer
    w = get_wp s io

    plane : (w.pl == 0) ≡ true
    plane = ground (arith, o.pl_zero)

    cut8 : (n : ℕ) → n < 2 ^ 8 → u8 n ≡ n
    cut8 n h = omega arith

    cut16 : (n : ℕ) → n < 2 ^ 16 → u16 n ≡ n
    cut16 n h = omega arith

page_at_valid :
    (s : ConvFtl) (w : WritePointer)
    → IsSlcFtl s
    → OnPage s.ssd.sp w
    → valid_ppa s (page_at w) ≡ true
unfolding valid_ppa
page_at_valid s w f o =
    rw
      (
        f.mode,
        f.lines,
        lt→ltb _ _ o.ch_in,
        lt→ltb _ _ o.lun_in,
        lt→ltb w.pl s.ssd.sp.pls_per_lun (omega (arith, o.pl_zero, o.planes)),
        lt→ltb _ _ o.blk_in,
      )
      (elim (ltb-cases w.blk s.ssd.sp.tt_lines_slc) [
        | inl (a, e) ↦ rw (e, lt→ltb _ _ (o.pg_in_slc a))
        | inr (a, e) ↦ rw (e, lt→ltb _ _ (o.pg_in_tlc a))
      ])

page_at_mapped :
    (s : ConvFtl) (w : WritePointer) → OnPage s.ssd.sp w → mapped_ppa (page_at w) ≡ true
unfolding mapped_ppa
page_at_mapped s w o = ground (
  arith,
  wp_page_in s w o,
  o.ch_in,
  o.few_channels,
  o.lun_in,
  o.few_dies,
  o.pl_zero,
  o.blk_in,
  o.few_blocks,
)

-- In an instance with the cache, from a write pointer on a page of the array the new page is that
-- of the pointer, and its address is valid and mapped: it is never mistaken for the unmapped one,
-- and no member is cut.
pub get_new_page_valid :
    (s : ConvFtl) (io : IoType)
    → IsSlcFtl s
    → OnPage s.ssd.sp (get_wp s io)
    → (get_new_page io s ≡ some (page_at (get_wp s io), s))
      × (valid_ppa s (page_at (get_wp s io)) ≡ true)
      × (mapped_ppa (page_at (get_wp s io)) ≡ true)
get_new_page_valid s io f o =
    (get_new_page_uncut s io o, page_at_valid s (get_wp s io) f o, page_at_mapped s (get_wp s io) o)
