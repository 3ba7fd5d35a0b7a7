-- ===== src/Nand/Access.antt =====
-- What a write to a die, a block or a page of the array changes, and what it leaves.
use nvmevirt_slc_cache.Common.{
  ℕ, ◌≡◌, ◌≢◌, ◌⊎◌, refl, Bool, false, ◌&&◌, arith, ◌==◌, if◌then◌else◌, update,
}
use nvmevirt_slc_cache.Ppa.{Ppa}
use nvmevirt_slc_cache.Nand.State.{
  NandLun, NandBlock, NandPage, Ssd, get_lun, get_blk, get_pg, set_lun, set_blk, set_pg,
}

pub lun-set_lun :
    (s : Ssd) (p : Ppa) (l : NandLun) (i j : ℕ)
    → ((set_lun s p l).ch i).lun j ≡ (if i == p.ch && j == p.lun then l else (s.ch i).lun j)
unfolding set_lun
lun-set_lun s p l i j = ground arith

pub get_lun-set_lun : (s : Ssd) (p : Ppa) (l : NandLun) → get_lun (set_lun s p l) p ≡ l
unfolding set_lun get_lun
get_lun-set_lun s p l = ground arith

pub lun-set_lun_ne :
    (s : Ssd) (p : Ppa) (l : NandLun) (i j : ℕ)
    → (i ≢ p.ch) ⊎ (j ≢ p.lun)
    → ((set_lun s p l).ch i).lun j ≡ (s.ch i).lun j
unfolding set_lun
lun-set_lun_ne s p l i j h = ground arith

-- The addresses of one block.
abbrev pub same_blk : Ppa → Ppa → Bool
same_blk p q = p.ch == q.ch && (p.lun == q.lun && (p.pl == q.pl && p.blk == q.blk))

-- The addresses of one page.
abbrev pub same_pg : Ppa → Ppa → Bool
same_pg p q = same_blk p q && p.pg == q.pg

pub get_blk-set_blk :
    (s : Ssd) (p : Ppa) (b : NandBlock) (q : Ppa)
    → get_blk (set_blk s p b) q ≡ (if same_blk q p then b else get_blk s q)
unfolding set_blk get_blk
get_blk-set_blk s p b q = ground arith

pub get_pg-set_pg :
    (s : Ssd) (p : Ppa) (g : NandPage) (q : Ppa)
    → get_pg (set_pg s p g) q ≡ (if same_pg q p then g else get_pg s q)
unfolding set_pg get_pg
get_pg-set_pg s p g q =
    ground
      (arith, get_blk-set_blk s p (record (get_blk s p) { pg = update (get_blk s p).pg p.pg g }) q)

pub sp-set_blk : (s : Ssd) (p : Ppa) (b : NandBlock) → (set_blk s p b).sp ≡ s.sp
unfolding set_blk
sp-set_blk s p b = refl

-- A write to a block that keeps its pages changes no page.
pub get_pg-set_blk_counts :
    (s : Ssd) (p : Ppa) (b : NandBlock) (q : Ppa)
    → ((x : ℕ) → b.pg x ≡ (get_blk s p).pg x)
    → get_pg (set_blk s p b) q ≡ get_pg s q
unfolding get_pg set_blk
get_pg-set_blk_counts s p b q h = ground (arith, h q.pg)

pub get_blk-set_blk_ne :
    (s : Ssd) (p : Ppa) (b : NandBlock) (q : Ppa)
    → same_blk q p ≡ false
    → get_blk (set_blk s p b) q ≡ get_blk s q
get_blk-set_blk_ne s p b q h = ground (arith, get_blk-set_blk s p b q)
