-- ===== src/Ppa.antt =====
-- `struct ppa` of ssd.h: a physical page address of 64 bits, in fields.
use nvmevirt_slc_cache.Common.{ℕ, ◌+◌, ◌-◌, ◌*◌, ◌/◌, ◌%◌, ◌^◌, Bool, not, ◌&&◌, ◌==◌}
use nvmevirt_slc_cache.Params.{SsdParams}

-- The fields of `g`, low bits first: 16, 16, 8, 8, 8 and 8 bits.
pub record Ppa : Type 0 where
  pub pg : ℕ
  pub blk : ℕ
  pub pl : ℕ
  pub lun : ℕ
  pub ch : ℕ
  pub rsv : ℕ

-- The member `ppa` of the union, the whole word.
unfoldable pub ppa_word : Ppa → ℕ
ppa_word p = p.pg + 2 ^ 16 * p.blk + 2 ^ 32 * p.pl + 2 ^ 40 * p.lun + 2 ^ 48 * p.ch + 2 ^ 56 * p.rsv

-- The member `h.blk_in_ssd`: the bits of `blk`, `pl`, `lun` and `ch`.
unfoldable pub blk_in_ssd : Ppa → ℕ
blk_in_ssd p = p.blk + 2 ^ 16 * p.pl + 2 ^ 24 * p.lun + 2 ^ 32 * p.ch

-- UNMAPPED_PPA and INVALID_LPN are words of ones.
abbrev pub unmapped_word : ℕ
unmapped_word = 2 ^ 64 - 1

abbrev pub invalid_lpn : ℕ
invalid_lpn = 2 ^ 64 - 1

abbrev pub unmapped_ppa : Ppa
unmapped_ppa = record { pg = 65535; blk = 65535; pl = 255; lun = 255; ch = 255; rsv = 255 }

unfoldable pub mapped_ppa : Ppa → Bool
unfolding ppa_word
mapped_ppa p = not (ppa_word p == unmapped_word)

-- `is_same_flash_page`
unfoldable pub is_same_flash_page : SsdParams → Ppa → Ppa → Bool
unfolding blk_in_ssd
is_same_flash_page spp p q =
    blk_in_ssd p == blk_in_ssd q && p.pg / spp.pgs_per_flashpg == q.pg / spp.pgs_per_flashpg

-- `get_cell`, for flash pages of some pages and cells of some levels; the code divides by both.
unfoldable pub get_cell : SsdParams → Ppa → ℕ
get_cell spp p = p.pg / spp.pgs_per_flashpg % spp.cell_mode
