-- ===== src/Ftl/Freed.antt =====
-- `mark_block_free`: the pages and the counts of an erased block.
use nvmevirt_slc_cache.Common.{
  ℕ, zero, suc, ◌+◌, ◌≤◌, ◌<◌, ◌≡◌, inl, inr, refl, sym, ap, ◌∙◌, arith, Bool, true, false, ◌==◌,
  ==_iff, Bool-cases, Returns, Returns-then, sum_below_le, update,
}
use nvmevirt_slc_cache.Ppa.{Ppa}
use nvmevirt_slc_cache.Nand.{PageStatus, pg_free, is_valid, NandPage, NandBlock, get_blk, set_blk}
use nvmevirt_slc_cache.Nand.Access.{same_blk, get_blk-set_blk, get_blk-set_blk_ne}
use nvmevirt_slc_cache.Ftl.State.{ConvFtl, pgs_per_blk_of}
use nvmevirt_slc_cache.Ftl.Mapping.{page_area}
use nvmevirt_slc_cache.Ftl.Pages.{free_pages, mark_block_free}
use nvmevirt_slc_cache.Ftl.Counts.{IsCounted, is_invalid, weight, pages_with}

-- The first `n` pages are free, and those after them as they were.
record Cleared (n : ℕ) (before after : ℕ → NandPage) : Type 0 where
  all_free : (j : ℕ) → j < n → (after j).status ≡ pg_free
  rest_kept : (j : ℕ) → n ≤ j → after j ≡ before j

free_pages-Cleared :
    (secs n : ℕ) (pg : ℕ → NandPage)
    → ((j : ℕ) → j < n → (pg j).nsecs ≡ secs)
    → Returns (Cleared n pg) (free_pages secs n pg)
unfolding free_pages
free_pages-Cleared secs zero pg h = record {
  all_free = λ j l. absurd (omega arith);
  rest_kept = λ j l. refl;
}
free_pages-Cleared secs (suc n) pg h =
    Returns-then (Cleared n pg) (Cleared (suc n) pg) (free_pages secs n pg) _
      (free_pages-Cleared secs n pg (λ j l. h j (omega arith)))
      λ a c.
        let here : ((a n).nsecs == secs) ≡ true =
          (==_iff _ _).1
            (ap (λ (x : NandPage). x.nsecs) (c.rest_kept n (omega arith)) ∙ h n (omega arith)) in
        rw here (record { all_free = freed a c; rest_kept = λ j l. kept a c j l })
  where
    freed :
        (a : ℕ → NandPage)
        → Cleared n pg a
        → (j : ℕ) → j < suc n
        → (update a n (record (a n) { status = pg_free }) j).status ≡ pg_free
    freed a c j l = elim (Bool-cases (j == n)) [
      | inl e ↦ rw e
      | inr e ↦ rw e (c.all_free j (ground arith))
    ]

    kept :
        (a : ℕ → NandPage)
        → Cleared n pg a
        → (j : ℕ) → suc n ≤ j
        → update a n (record (a n) { status = pg_free }) j ≡ pg j
    kept a c j l = let e : (j == n) ≡ false = ground arith in rw e (c.rest_kept j (omega arith))

-- A block of free pages has none of another status.
none_with :
    (f : PageStatus → Bool) (n : ℕ) (pg : ℕ → NandPage)
    → f pg_free ≡ false
    → ((j : ℕ) → j < n → (pg j).status ≡ pg_free)
    → pages_with f n pg ≡ 0
none_with f n pg e h =
    omega (arith, sum_below_le (λ j. weight (f (pg j).status)) n 0 (λ j l. zero_at j l))
  where
    zero_at : (j : ℕ) → j < n → weight (f (pg j).status) ≤ 0
    zero_at j l = rw (h j l, e) (omega arith)

-- What an erased block holds, and what the state keeps.
pub record Freed (s : ConvFtl) (p : Ppa) (t : ConvFtl) : Type 0 where
  pub pages_free :
      (j : ℕ)
      → j < pgs_per_blk_of s.ssd.sp (page_area s p)
      → ((get_blk t.ssd p).pg j).status ≡ pg_free
  pub counted : IsCounted (pgs_per_blk_of s.ssd.sp (page_area s p)) (get_blk t.ssd p)
  pub erased : (get_blk t.ssd p).erase_cnt ≡ (get_blk s.ssd p).erase_cnt + 1
  pub other_blocks : (q : Ppa) → same_blk q p ≡ false → get_blk t.ssd q ≡ get_blk s.ssd q
  pub tables : (t.maptbl ≡ s.maptbl) × (t.rmap ≡ s.rmap)

-- A block with the size of its area, whose pages have the sectors of a page, is freed without a
-- failed assertion: its pages are free, its counts are right, it is erased once more, and every
-- other block and the mapping tables are as before.
pub mark_block_free-Freed :
    (s : ConvFtl) (p : Ppa)
    → (get_blk s.ssd p).npgs ≡ pgs_per_blk_of s.ssd.sp (page_area s p)
    → ((j : ℕ)
        → j < pgs_per_blk_of s.ssd.sp (page_area s p)
        → ((get_blk s.ssd p).pg j).nsecs ≡ s.ssd.sp.secs_per_pg)
    → Returns (λ r. Freed s p r.1) (mark_block_free p s)
unfolding mark_block_free
mark_block_free-Freed s p size secs =
    let n = pgs_per_blk_of s.ssd.sp (page_area s p) in
    let b = get_blk s.ssd p in
    Returns-then (Cleared n b.pg) (λ r. Freed s p r.1) (free_pages s.ssd.sp.secs_per_pg n b.pg) _
      (free_pages-Cleared s.ssd.sp.secs_per_pg n b.pg secs)
      λ a c. rw ((==_iff _ _).1 size) (erase a c)
  where
    erased_block : (ℕ → NandPage) → NandBlock
    erased_block a =
        let b = get_blk s.ssd p in
        record b { pg = a; ipc = 0; vpc = 0; erase_cnt = b.erase_cnt + 1 }

    written : (a : ℕ → NandPage) → get_blk (set_blk s.ssd p (erased_block a)) p ≡ erased_block a
    written a =
        let e : same_blk p p ≡ true = ground arith in
        get_blk-set_blk s.ssd p (erased_block a) p ∙ (rw e)

    erase :
        (a : ℕ → NandPage)
        → Cleared (pgs_per_blk_of s.ssd.sp (page_area s p)) (get_blk s.ssd p).pg a
        → Freed s p (record s { ssd = set_blk s.ssd p (erased_block a) })
    erase a c = record {
      pages_free = λ j l. ap (λ (x : NandBlock). (x.pg j).status) (written a) ∙ c.all_free j l;
      counted = rw (written a) (record {
        valid_pages = sym (none_with is_valid _ a refl c.all_free);
        invalid_pages = sym (none_with is_invalid _ a refl c.all_free);
      });
      erased = ap (λ (x : NandBlock). x.erase_cnt) (written a);
      other_blocks = λ q h. get_blk-set_blk_ne s.ssd p (erased_block a) q h;
      tables = (refl, refl);
    }
