-- ===== src/Ftl/Counts.antt =====
-- The page counts of a block, and what marking a page does to the numbers of its pages.
use nvmevirt_slc_cache.Common.{
  ℕ, ◌+◌, ◌≤◌, ◌<◌, ◌≡◌, ap, ◌∙◌, arith, Bool, true, false, ◌==◌, if◌then◌else◌, sum_below,
  sum_below_change, sum_below_le, sum_below_add,
}
use nvmevirt_slc_cache.Ppa.{Ppa}
use nvmevirt_slc_cache.Nand.{
  PageStatus, pg_free, pg_invalid, pg_valid, is_valid, NandPage, NandBlock, Ssd, get_pg, get_blk,
}
use nvmevirt_slc_cache.Nand.Access.{same_pg}
use nvmevirt_slc_cache.Ftl.Blocks.{Marked, mark, mark-Marked, status_of}

abbrev pub is_invalid : PageStatus → Bool
is_invalid pg_invalid = true
is_invalid _ = false

abbrev pub weight : Bool → ℕ
weight true = 1
weight false = 0

-- How many of the first `n` pages have a status.
abbrev pub pages_with : (PageStatus → Bool) → ℕ → (ℕ → NandPage) → ℕ
pages_with f n pg = sum_below (λ j. weight (f (pg j).status)) n

-- The two counts of a block of `n` pages are those of its pages.
pub record IsCounted (n : ℕ) (b : NandBlock) : Type 0 where
  pub valid_pages : b.vpc ≡ pages_with is_valid n b.pg
  pub invalid_pages : b.ipc ≡ pages_with is_invalid n b.pg

weight_le : (b : Bool) → weight b ≤ 1
weight_le true = omega arith
weight_le false = omega arith

one_of : (a : PageStatus) → weight (is_valid a) + weight (is_invalid a) ≤ 1
one_of pg_free = omega arith
one_of pg_invalid = omega arith
one_of pg_valid = omega arith

-- The status of one page of the block after a mark.
status-Marked :
    (d e : Ssd) (p : Ppa) {new : PageStatus} {i v : ℕ}
    → Marked d p new i v e
    → (j : ℕ)
    → ((get_blk e p).pg j).status ≡ (if j == p.pg then new else ((get_blk d p).pg j).status)
unfolding get_pg get_blk
status-Marked d e p {new = new} m j = m.pages (record p { pg = j }) ∙ here
  where
    here :
        (if same_pg (record p { pg = j }) p then new else ((get_blk d p).pg j).status)
        ≡ (if j == p.pg then new else ((get_blk d p).pg j).status)
    here = ground arith

-- A mark turns a page of a status into one without it, or the other way round.
pub pages_with-Marked :
    (f : PageStatus → Bool) (n : ℕ) (d e : Ssd) (p : Ppa) {new : PageStatus} {i v : ℕ}
    → Marked d p new i v e
    → p.pg < n
    → pages_with f n (get_blk e p).pg + weight (f (status_of d p))
      ≡ pages_with f n (get_blk d p).pg + weight (f new)
unfolding get_pg
pages_with-Marked f n d e p {new = new} m l =
    sum_below_change (λ j. weight (f ((get_blk d p).pg j).status))
      (λ j. weight (f ((get_blk e p).pg j).status)) n p.pg l
      (λ j ne. ap (λ (a : PageStatus). weight (f a)) (status-Marked d e p m j ∙ (ground arith)))
    ∙ ap (λ (a : PageStatus). pages_with f n (get_blk d p).pg + weight (f a))
        (status-Marked d e p m p.pg ∙ (ground arith))

pub pages_with_le : (f : PageStatus → Bool) (n : ℕ) (pg : ℕ → NandPage) → pages_with f n pg ≤ n
pages_with_le f n pg =
    omega
      (arith, sum_below_le (λ j. weight (f (pg j).status)) n 1 (λ j _. weight_le (f (pg j).status)))

-- A page without a status keeps a block from being full of it.
pub pages_with-lt :
    (f : PageStatus → Bool) (n : ℕ) (p : Ppa) (d : Ssd) (new : PageStatus)
    → p.pg < n
    → f (status_of d p) ≡ false
    → f new ≡ true
    → pages_with f n (get_blk d p).pg < n
pages_with-lt f n p d new l h k = omega (
  arith,
  pages_with-Marked f n d (mark new 0 0 p d) p (mark-Marked new 0 0 p d) l,
  ap weight h,
  ap weight k,
  pages_with_le f n (get_blk (mark new 0 0 p d) p).pg,
)

-- A page with a status is counted.
pub pages_with-pos :
    (f : PageStatus → Bool) (n : ℕ) (p : Ppa) (d : Ssd) (new : PageStatus)
    → p.pg < n
    → f (status_of d p) ≡ true
    → f new ≡ false
    → 0 < pages_with f n (get_blk d p).pg
pages_with-pos f n p d new l h k = omega (
  arith,
  pages_with-Marked f n d (mark new 0 0 p d) p (mark-Marked new 0 0 p d) l,
  ap weight h,
  ap weight k,
)

-- No page is valid and invalid.
pub IsCounted-bounded : (n : ℕ) (b : NandBlock) → IsCounted n b → b.vpc + b.ipc ≤ n
IsCounted-bounded n b c = omega (
  arith,
  c.valid_pages,
  c.invalid_pages,
  sum_below_add valid invalid n,
  sum_below_le (λ j. valid j + invalid j) n 1 (λ j _. one_of (b.pg j).status),
)
  where
    valid : ℕ → ℕ
    valid j = weight (is_valid (b.pg j).status)

    invalid : ℕ → ℕ
    invalid j = weight (is_invalid (b.pg j).status)
