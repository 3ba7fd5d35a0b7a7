-- ===== src/Ftl/LineSums.antt =====
-- The page counts of a line, one block of every die, against those of its blocks.
use nvmevirt_slc_cache.Common.{
  ℕ, ◌+◌, ◌*◌, ◌≤◌, ◌<◌, ◌≡◌, ◌≢◌, ap, ◌∙◌, arith, false, sum_below, sum_below_ext,
  sum_below_change, sum_below_le, sum_below_add,
}
use nvmevirt_slc_cache.Params.{SsdParams}
use nvmevirt_slc_cache.Ppa.{Ppa}
use nvmevirt_slc_cache.Nand.{NandBlock, Ssd, get_blk}
use nvmevirt_slc_cache.Nand.Access.{same_blk}
use nvmevirt_slc_cache.Ftl.State.{ConvFtl, line_at, pgs_per_blk_of}
use nvmevirt_slc_cache.Ftl.Mapping.{page_area, get_line}
use nvmevirt_slc_cache.Ftl.Counts.{IsCounted}

-- A block by its die and its number; a die has one plane.
abbrev pub blk_at : (ch lun blk : ℕ) → Ppa
blk_at c l b = record { pg = 0; blk = b; pl = 0; lun = l; ch = c; rsv = 0 }

-- A quantity of blocks, added up over the blocks of a line.
abbrev pub line_sum : (NandBlock → ℕ) → SsdParams → Ssd → ℕ → ℕ
line_sum f spp d b =
    sum_below (λ c. sum_below (λ l. f (get_blk d (blk_at c l b))) spp.luns_per_ch) spp.nchs

-- The counts of the line with block number `b` are the sums of its blocks' counts.
pub record LineIsCounted (s : ConvFtl) (b : ℕ) : Type 0 where
  pub line_valid :
      (line_at s (get_line s (blk_at 0 0 b))).vpc ≡ line_sum (λ x. x.vpc) s.ssd.sp s.ssd b
  pub line_invalid :
      (line_at s (get_line s (blk_at 0 0 b))).ipc ≡ line_sum (λ x. x.ipc) s.ssd.sp s.ssd b

-- A block of the array.
pub record InBlocks (spp : SsdParams) (p : Ppa) : Type 0 where
  pub ch_in : p.ch < spp.nchs
  pub lun_in : p.lun < spp.luns_per_ch
  pub pl_zero : p.pl ≡ 0
  pub blk_in : p.blk < spp.blks_per_pl

-- Every count of the instance is right: blocks against pages, lines against blocks.
pub record AllCounted (s : ConvFtl) : Type 0 where
  pub blocks :
      (q : Ppa)
      → InBlocks s.ssd.sp q
      → IsCounted (pgs_per_blk_of s.ssd.sp (page_area s q)) (get_blk s.ssd q)
  pub lines : (b : ℕ) → b < s.ssd.sp.blks_per_pl → LineIsCounted s b

pub get_blk_at : (d : Ssd) (p : Ppa) → p.pl ≡ 0 → get_blk d (blk_at p.ch p.lun p.blk) ≡ get_blk d p
unfolding get_blk
get_blk_at d p h = rw h

-- One block of a line changes.
pub line_sum_change :
    (f : NandBlock → ℕ) (spp : SsdParams) (d e : Ssd) (p : Ppa)
    → InBlocks spp p
    → ((q : Ppa) → same_blk q p ≡ false → f (get_blk e q) ≡ f (get_blk d q))
    → line_sum f spp e p.blk + f (get_blk d p) ≡ line_sum f spp d p.blk + f (get_blk e p)
line_sum_change f spp d e p v h =
    let inner =
      sum_below_change (row d p.ch) (row e p.ch) spp.luns_per_ch p.lun v.lun_in
        (λ l ne. h (blk_at p.ch l p.blk) (ground arith)) in
    let outer =
      sum_below_change (λ c. sum_below (row d c) spp.luns_per_ch)
        (λ c. sum_below (row e c) spp.luns_per_ch) spp.nchs p.ch v.ch_in
        (λ c ne.
          sum_below_ext (row e c) (row d c) spp.luns_per_ch
            (λ l _. h (blk_at c l p.blk) (ground arith))) in
    omega (arith, inner, outer, ap f (get_blk_at d p v.pl_zero), ap f (get_blk_at e p v.pl_zero))
  where
    row : Ssd → ℕ → ℕ → ℕ
    row x c l = f (get_blk x (blk_at c l p.blk))

-- The lines of other blocks do not change.
pub line_sum_elsewhere :
    (f : NandBlock → ℕ) (spp : SsdParams) (d e : Ssd) (p : Ppa) (b : ℕ)
    → b ≢ p.blk
    → ((q : Ppa) → same_blk q p ≡ false → f (get_blk e q) ≡ f (get_blk d q))
    → line_sum f spp e b ≡ line_sum f spp d b
line_sum_elsewhere f spp d e p b ne h =
    sum_below_ext _ _ spp.nchs
      (λ c _. sum_below_ext _ _ spp.luns_per_ch (λ l _. h (blk_at c l b) (ground arith)))

-- A line of blocks of at most `k` has at most that many times its dies.
pub line_sum_le :
    (f : NandBlock → ℕ) (spp : SsdParams) (d : Ssd) (b k : ℕ)
    → ((c l : ℕ) → c < spp.nchs → l < spp.luns_per_ch → f (get_blk d (blk_at c l b)) ≤ k)
    → line_sum f spp d b ≤ spp.nchs * (spp.luns_per_ch * k)
line_sum_le f spp d b k h =
    sum_below_le _ spp.nchs (spp.luns_per_ch * k)
      (λ c lc. sum_below_le _ spp.luns_per_ch k (λ l ll. h c l lc ll))

pub line_sum_add :
    (f g : NandBlock → ℕ) (spp : SsdParams) (d : Ssd) (b : ℕ)
    → line_sum (λ x. f x + g x) spp d b ≡ line_sum f spp d b + line_sum g spp d b
line_sum_add f g spp d b =
    sum_below_ext _ _ spp.nchs (λ c _. sum_below_add (row f c) (row g c) spp.luns_per_ch)
    ∙ sum_below_add (λ c. sum_below (row f c) spp.luns_per_ch)
        (λ c. sum_below (row g c) spp.luns_per_ch) spp.nchs
  where
    row : (NandBlock → ℕ) → ℕ → ℕ → ℕ
    row h c l = h (get_blk d (blk_at c l b))
