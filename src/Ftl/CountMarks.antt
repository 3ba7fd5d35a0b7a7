-- ===== src/Ftl/CountMarks.antt =====
-- `mark_page_invalid` and `mark_page_valid` on a block and its counts.
use nvmevirt_slc_cache.Common.{
  ℕ, ◌+◌, ◌-◌, ◌≤◌, ◌<◌, ◌≡◌, refl, ◌∙◌, arith, some, lt→ltb, le→leb, update, Returns,
}
use nvmevirt_slc_cache.Ppa.{Ppa}
use nvmevirt_slc_cache.Nand.{
  PageStatus, pg_free, pg_invalid, pg_valid, is_valid, NandPage, NandBlock, Ssd, get_pg, get_blk,
  set_pg, set_blk,
}
use nvmevirt_slc_cache.Nand.Access.{get_blk-set_blk}
use nvmevirt_slc_cache.Ftl.Pages.{invalidate_in_block, validate_in_block}
use nvmevirt_slc_cache.Ftl.Blocks.{Marked, mark, mark-Marked, status_of, same_blk_self}
use nvmevirt_slc_cache.Ftl.Counts.{
  is_invalid, weight, pages_with, IsCounted, pages_with-Marked, pages_with_le, pages_with-lt,
  pages_with-pos,
}

-- The counts of the block that a function reads after it has written the page.
counts-set_pg :
    (d : Ssd) (p : Ppa) (g : NandPage)
    → ((get_blk (set_pg d p g) p).ipc ≡ (get_blk d p).ipc)
      × ((get_blk (set_pg d p g) p).vpc ≡ (get_blk d p).vpc)
unfolding set_pg
counts-set_pg d p g = (ground (arith, here), ground (arith, here))
  where
    b : NandBlock
    b = record (get_blk d p) { pg = update (get_blk d p).pg p.pg g }

    here : get_blk (set_blk d p b) p ≡ b
    here = get_blk-set_blk d p b p ∙ (rw (same_blk_self p))

-- What marking did to the page's block and to the array.
abbrev pub Accounted : ℕ → PageStatus → (ipc vpc : ℕ) → Ppa → Ssd → Unit {0} × Ssd → Type 0
Accounted n new ipc vpc p d r = IsCounted n (get_blk r.1 p) × Marked d p new ipc vpc r.1

-- A mark whose counts go with the statuses keeps the counts right.
mark-IsCounted :
    (n : ℕ) (p : Ppa) (d e : Ssd) {new : PageStatus} {i v : ℕ}
    → p.pg < n
    → IsCounted n (get_blk d p)
    → Marked d p new i v e
    → i + weight (is_invalid (status_of d p)) ≡ (get_blk d p).ipc + weight (is_invalid new)
    → v + weight (is_valid (status_of d p)) ≡ (get_blk d p).vpc + weight (is_valid new)
    → IsCounted n (get_blk e p)
mark-IsCounted n p d e l c m hi hv = record {
  valid_pages = omega (arith, pages_with-Marked is_valid n d e p m l, m.valid_here, c.valid_pages);
  invalid_pages =
      omega (arith, pages_with-Marked is_invalid n d e p m l, m.invalid_here, c.invalid_pages);
}

invalidate_in_block-mark :
    (n : ℕ) (p : Ppa) (d : Ssd)
    → status_of d p ≡ pg_valid
    → (get_blk d p).ipc < n
    → 0 < (get_blk d p).vpc
    → (get_blk d p).vpc ≤ n
    → invalidate_in_block n p d
      ≡ some (tt, mark pg_invalid ((get_blk d p).ipc + 1) ((get_blk d p).vpc - 1) p d)
unfolding invalidate_in_block mark
invalidate_in_block-mark n p d h i v w =
    let kept = counts-set_pg d p (record (get_pg d p) { status = pg_invalid }) in
    rw (kept.0, kept.1, h, lt→ltb _ _ i, lt→ltb _ _ v, le→leb _ _ w)

validate_in_block-mark :
    (n : ℕ) (p : Ppa) (d : Ssd)
    → status_of d p ≡ pg_free
    → (get_blk d p).vpc < n
    → validate_in_block n p d
      ≡ some (tt, mark pg_valid (get_blk d p).ipc ((get_blk d p).vpc + 1) p d)
unfolding validate_in_block mark
validate_in_block-mark n p d h v =
    let kept = counts-set_pg d p (record (get_pg d p) { status = pg_valid }) in
    rw (kept.0, kept.1, h, lt→ltb _ _ v)

-- A valid page of a block whose counts are right is made invalid: none of the assertions on the
-- block fails and the counts stay right; no other page gets a new state, no other block changes,
-- and the block keeps its size and its number of erasures.
pub invalidate_in_block-IsCounted :
    (n : ℕ) (p : Ppa) (d : Ssd)
    → p.pg < n
    → IsCounted n (get_blk d p)
    → status_of d p ≡ pg_valid
    → Returns
        (Accounted n pg_invalid ((get_blk d p).ipc + 1) ((get_blk d p).vpc - 1) p d)
        (invalidate_in_block n p d)
invalidate_in_block-IsCounted n p d l c h =
    rw
      (invalidate_in_block-mark n p d h (omega (arith, room, c.invalid_pages))
        (omega (arith, here, c.valid_pages)) (omega (arith, all, c.valid_pages)))
      (
        mark-IsCounted n p d _ l c marked (omega (arith, w1))
            (omega (arith, w0, here, c.valid_pages)),
        marked,
      )
  where
    pg : ℕ → NandPage
    pg = (get_blk d p).pg

    room : pages_with is_invalid n pg < n
    room = pages_with-lt is_invalid n p d pg_invalid l (rw h) refl

    here : 0 < pages_with is_valid n pg
    here = pages_with-pos is_valid n p d pg_invalid l (rw h) refl

    all : pages_with is_valid n pg ≤ n
    all = pages_with_le is_valid n pg

    w0 : weight (is_valid (status_of d p)) ≡ 1
    w0 = rw h

    w1 : weight (is_invalid (status_of d p)) ≡ 0
    w1 = rw h

    marked :
        Marked d p pg_invalid
          ((get_blk d p).ipc + 1)
          ((get_blk d p).vpc - 1)
          (mark pg_invalid ((get_blk d p).ipc + 1) ((get_blk d p).vpc - 1) p d)
    marked = mark-Marked pg_invalid ((get_blk d p).ipc + 1) ((get_blk d p).vpc - 1) p d

-- A free page of a block whose counts are right is made valid: none of the assertions on the
-- block fails and the counts stay right; no other page gets a new state, no other block changes,
-- and the block keeps its size and its number of erasures.
pub validate_in_block-IsCounted :
    (n : ℕ) (p : Ppa) (d : Ssd)
    → p.pg < n
    → IsCounted n (get_blk d p)
    → status_of d p ≡ pg_free
    → Returns
        (Accounted n pg_valid (get_blk d p).ipc ((get_blk d p).vpc + 1) p d)
        (validate_in_block n p d)
validate_in_block-IsCounted n p d l c h =
    rw (validate_in_block-mark n p d h (omega (arith, room, c.valid_pages)))
      (mark-IsCounted n p d _ l c marked (omega (arith, w1)) (omega (arith, w0)), marked)
  where
    room : pages_with is_valid n (get_blk d p).pg < n
    room = pages_with-lt is_valid n p d pg_valid l (rw h) refl

    w0 : weight (is_valid (status_of d p)) ≡ 0
    w0 = rw h

    w1 : weight (is_invalid (status_of d p)) ≡ 0
    w1 = rw h

    marked :
        Marked d p pg_valid
          (get_blk d p).ipc
          ((get_blk d p).vpc + 1)
          (mark pg_valid (get_blk d p).ipc ((get_blk d p).vpc + 1) p d)
    marked = mark-Marked pg_valid (get_blk d p).ipc ((get_blk d p).vpc + 1) p d
