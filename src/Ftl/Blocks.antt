-- ===== src/Ftl/Blocks.antt =====
-- What marking a page does to its block.
use nvmevirt_slc_cache.Common.{ℕ, ◌≡◌, refl, ap, ◌∙◌, arith, true, false, if◌then◌else◌, update}
use nvmevirt_slc_cache.Ppa.{Ppa}
use nvmevirt_slc_cache.Nand.{PageStatus, NandPage, NandBlock, Ssd, get_pg, get_blk, set_pg, set_blk}
use nvmevirt_slc_cache.Nand.Access.{
  same_blk, same_pg, get_blk-set_blk, get_pg-set_pg, get_pg-set_blk_counts, get_blk-set_blk_ne,
}

abbrev pub status_of : Ssd → Ppa → PageStatus
status_of d q = (get_pg d q).status

-- One page of the array has a new state, its block the counts `ipc` and `vpc`; the block's number of
-- erasures and size stay, no other page gets a new state, and no other block changes.
pub record Marked (d : Ssd) (p : Ppa) (new : PageStatus) (ipc vpc : ℕ) (e : Ssd) : Type 0 where
  pub params : e.sp ≡ d.sp
  pub pages : (q : Ppa) → status_of e q ≡ (if same_pg q p then new else status_of d q)
  pub invalid_here : (get_blk e p).ipc ≡ ipc
  pub valid_here : (get_blk e p).vpc ≡ vpc
  pub invalid_elsewhere : (q : Ppa) → same_blk q p ≡ false → (get_blk e q).ipc ≡ (get_blk d q).ipc
  pub blocks_elsewhere : (q : Ppa) → same_blk q p ≡ false → get_blk e q ≡ get_blk d q
  pub erases_here : (get_blk e p).erase_cnt ≡ (get_blk d p).erase_cnt
  pub size_here : (get_blk e p).npgs ≡ (get_blk d p).npgs
  pub valid_elsewhere : (q : Ppa) → same_blk q p ≡ false → (get_blk e q).vpc ≡ (get_blk d q).vpc

-- A page gets the state `new` and its block the counts, as both functions do it.
unfoldable pub mark : PageStatus → ℕ → ℕ → Ppa → Ssd → Ssd
mark new ipc vpc p d =
    let e = set_pg d p (record (get_pg d p) { status = new }) in
    set_blk e p (record (get_blk e p) { ipc = ipc; vpc = vpc })

pub same_blk_self : (p : Ppa) → same_blk p p ≡ true
same_blk_self p = ground arith

get_blk-set_pg_ne :
    (d : Ssd) (p : Ppa) (g : NandPage) (q : Ppa)
    → same_blk q p ≡ false
    → get_blk (set_pg d p g) q ≡ get_blk d q
unfolding set_pg
get_blk-set_pg_ne d p g q h = get_blk-set_blk_ne d p _ q h

pub mark-Marked :
    (new : PageStatus) (ipc vpc : ℕ) (p : Ppa) (d : Ssd)
    → Marked d p new ipc vpc (mark new ipc vpc p d)
unfolding mark
mark-Marked new ipc vpc p d = record {
  params = unfold set_blk set_pg in refl;
  pages = λ q.
      ap (λ (g : NandPage). g.status) (get_pg-set_blk_counts e p b q (λ x. refl))
      ∙ (ground (arith, get_pg-set_pg d p g q));
  invalid_here = ground (arith, get_blk-set_blk e p b p);
  valid_here = ground (arith, get_blk-set_blk e p b p);
  invalid_elsewhere = λ q h.
      ap (λ (x : NandBlock). x.ipc) (get_blk-set_blk_ne e p b q h ∙ get_blk-set_pg_ne d p g q h);
  blocks_elsewhere = λ q h. get_blk-set_blk_ne e p b q h ∙ get_blk-set_pg_ne d p g q h;
  erases_here =
      ap (λ (x : NandBlock). x.erase_cnt)
        (written ∙ ap (λ (x : NandBlock). record x { ipc = ipc; vpc = vpc }) marked);
  size_here =
      ap (λ (x : NandBlock). x.npgs)
        (written ∙ ap (λ (x : NandBlock). record x { ipc = ipc; vpc = vpc }) marked);
  valid_elsewhere = λ q h.
      ap (λ (x : NandBlock). x.vpc) (get_blk-set_blk_ne e p b q h ∙ get_blk-set_pg_ne d p g q h);
}
  where
    g : NandPage
    g = record (get_pg d p) { status = new }

    e : Ssd
    e = set_pg d p g

    b : NandBlock
    b = record (get_blk e p) { ipc = ipc; vpc = vpc }

    written : get_blk (set_blk e p b) p ≡ b
    written = get_blk-set_blk e p b p ∙ (rw (same_blk_self p) refl)

    c : NandBlock
    c = record (get_blk d p) { pg = update (get_blk d p).pg p.pg g }

    marked : get_blk e p ≡ c
    marked = unfold set_pg in (get_blk-set_blk d p c p ∙ (rw (same_blk_self p) refl))
