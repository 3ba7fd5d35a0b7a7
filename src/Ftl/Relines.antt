-- ===== src/Ftl/Relines.antt =====
-- A write to the lines of one area, seen through `get_line`.
use nvmevirt_slc_cache.Common.{
  ℕ, ◌≡◌, ◌≢◌, ◌⊎◌, inl, inr, refl, sym, ap, ◌∙◌, arith, Bool, true, false, if◌then◌else◌,
  Bool-cases,
}
use nvmevirt_slc_cache.Ppa.{Ppa}
use nvmevirt_slc_cache.Nand.{Ssd}
use nvmevirt_slc_cache.Ftl.State.{
  LineMode, slc_mode, tlc_mode, is_slc, ConvFtl, Line, LineRef, LineMgmt, lm_of, set_lm, line_at,
}
use nvmevirt_slc_cache.Ftl.Mapping.{page_area, get_line}
use nvmevirt_slc_cache.Ftl.LineSums.{blk_at}
use nvmevirt_slc_cache.Ftl.Recount.{Relined}

-- With the cache's line count in its manager, the area of a page's line is the page's.
pub get_line_area :
    (s : ConvFtl) (p : Ppa)
    → s.slm.tt_lines ≡ s.ssd.sp.tt_lines_slc
    → (get_line s p).area ≡ page_area s p
unfolding get_line
get_line_area s p h = ground arith

abbrev same_mode : LineMode → LineMode → Bool
same_mode a b = if is_slc a then is_slc b else (if is_slc b then false else true)

line_at-set_lm :
    (s : ConvFtl) (d : Ssd) (a : LineMode) (m : LineMgmt) (q : LineRef)
    → line_at (set_lm (record s { ssd = d }) a m) q
      ≡ (if same_mode q.area a then m.lines q.idx else line_at s q)
line_at-set_lm s d a m q = go a q.area q.idx
  where
    go :
        (a b : LineMode) (i : ℕ)
        → (lm_of (set_lm (record s { ssd = d }) a m) b).lines i
          ≡ (if same_mode b a then m.lines i else (lm_of s b).lines i)
    go slc_mode slc_mode i = refl
    go slc_mode tlc_mode i = refl
    go tlc_mode slc_mode i = refl
    go tlc_mode tlc_mode i = refl

same_mode_self : (a : LineMode) → same_mode a a ≡ true
same_mode_self slc_mode = refl
same_mode_self tlc_mode = refl

same_mode_eq : (a b : LineMode) → same_mode a b ≡ true → a ≡ b
same_mode_eq slc_mode slc_mode h = refl
same_mode_eq tlc_mode tlc_mode h = refl
same_mode_eq slc_mode tlc_mode h = cc
same_mode_eq tlc_mode slc_mode h = cc

-- Lines of one area with one index have one block number.
get_line_apart :
    (s : ConvFtl) (p q : Ppa)
    → same_mode (get_line s q).area (get_line s p).area ≡ true
    → (get_line s q).idx ≡ (get_line s p).idx
    → q.blk ≡ p.blk
unfolding get_line
get_line_apart s p q h k = ground arith

-- The tables, the write pointers and the layout are untouched.
pub record Kept (s t : ConvFtl) : Type 0 where
  pub maptbl : t.maptbl ≡ s.maptbl
  pub rmap : t.rmap ≡ s.rmap
  pub wp : t.wp ≡ s.wp
  pub gc_wp : t.gc_wp ≡ s.gc_wp
  pub kept_mode : t.slc_mode ≡ s.slc_mode
  pub slc_count : t.slm.tt_lines ≡ s.slm.tt_lines
  pub params_kept : t.ssd.sp ≡ s.ssd.sp

pub set_lm-Kept :
    (s : ConvFtl) (d : Ssd) (a : LineMode) (m : LineMgmt)
    → m.tt_lines ≡ (lm_of s a).tt_lines
    → d.sp ≡ s.ssd.sp
    → Kept s (set_lm (record s { ssd = d }) a m)
set_lm-Kept s d slc_mode m h k = record {
  maptbl = refl;
  rmap = refl;
  wp = refl;
  gc_wp = refl;
  kept_mode = refl;
  slc_count = h;
  params_kept = k;
}
set_lm-Kept s d tlc_mode m h k = record {
  maptbl = refl;
  rmap = refl;
  wp = refl;
  gc_wp = refl;
  kept_mode = refl;
  slc_count = refl;
  params_kept = k;
}

lm_tt_lines :
    (s : ConvFtl) (d : Ssd) (a : LineMode) (m : LineMgmt)
    → m.tt_lines ≡ (lm_of s a).tt_lines
    → (set_lm (record s { ssd = d }) a m).slm.tt_lines ≡ s.slm.tt_lines
lm_tt_lines s d slc_mode m h = h
lm_tt_lines s d tlc_mode m h = refl

pub ssd-set_lm :
    (s : ConvFtl) (d : Ssd) (a : LineMode) (m : LineMgmt)
    → (set_lm (record s { ssd = d }) a m).ssd ≡ d
ssd-set_lm s d slc_mode m = refl
ssd-set_lm s d tlc_mode m = refl

lm_mode :
    (s : ConvFtl) (d : Ssd) (a : LineMode) (m : LineMgmt)
    → (set_lm (record s { ssd = d }) a m).slc_mode ≡ s.slc_mode
lm_mode s d slc_mode m = refl
lm_mode s d tlc_mode m = refl

-- A manager whose lines keep their counts, but for one line.
pub record Recounted (before : LineMgmt) (i ipc vpc : ℕ) (m : LineMgmt) : Type 0 where
  pub tt_lines : m.tt_lines ≡ before.tt_lines
  pub ipc_here : (m.lines i).ipc ≡ ipc
  pub vpc_here : (m.lines i).vpc ≡ vpc
  pub ipc_elsewhere : (j : ℕ) → j ≢ i → (m.lines j).ipc ≡ (before.lines j).ipc
  pub vpc_elsewhere : (j : ℕ) → j ≢ i → (m.lines j).vpc ≡ (before.lines j).vpc

-- The lines of the other blocks after the write.
relined_elsewhere :
    (s : ConvFtl) (d : Ssd) (p q : Ppa) (m : LineMgmt) (f : Line → ℕ)
    → ((j : ℕ) → j ≢ (get_line s p).idx → f (m.lines j) ≡ f ((lm_of s (get_line s p).area).lines j))
    → q.blk ≢ p.blk
    → f (line_at (set_lm (record s { ssd = d }) (get_line s p).area m) (get_line s q))
      ≡ f (line_at s (get_line s q))
relined_elsewhere s d p q m f h ne =
    ap f (line_at-set_lm s d (get_line s p).area m (get_line s q)) ∙ (go (Bool-cases _))
  where
    go :
        (same_mode (get_line s q).area (get_line s p).area ≡ true)
          ⊎ (same_mode (get_line s q).area (get_line s p).area ≡ false)
        → f (
            if same_mode (get_line s q).area (get_line s p).area
            then m.lines (get_line s q).idx
            else line_at s (get_line s q))
          ≡ f (line_at s (get_line s q))
    go (inl e) =
        let a : (get_line s q).area ≡ (get_line s p).area = same_mode_eq _ _ e in
        (rw e (h (get_line s q).idx (λ k. ne (get_line_apart s p q e k))))
        ∙ ap (λ (x : LineMode). f ((lm_of s x).lines (get_line s q).idx)) (sym a)
    go (inr e) = rw e

pub set_lm-Relined :
    (s : ConvFtl) (d : Ssd) (p : Ppa) (m : LineMgmt) (ipc vpc : ℕ)
    → Recounted (lm_of s (get_line s p).area) (get_line s p).idx ipc vpc m
    → Relined s p ipc vpc (set_lm (record s { ssd = d }) (get_line s p).area m)
set_lm-Relined s d p m ipc vpc c = record {
  mode = lm_mode s d (get_line s p).area m;
  slc_lines = lm_tt_lines s d (get_line s p).area m c.tt_lines;
  here_invalid = ap (λ (x : Line). x.ipc) here ∙ c.ipc_here;
  here_valid = ap (λ (x : Line). x.vpc) here ∙ c.vpc_here;
  lines_elsewhere = λ b ne. (
    relined_elsewhere s d p (blk_at 0 0 b) m (λ x. x.ipc) c.ipc_elsewhere ne,
    relined_elsewhere s d p (blk_at 0 0 b) m (λ x. x.vpc) c.vpc_elsewhere ne,
  );
}
  where
    here :
        line_at (set_lm (record s { ssd = d }) (get_line s p).area m) (get_line s p)
        ≡ m.lines (get_line s p).idx
    here =
        line_at-set_lm s d (get_line s p).area m (get_line s p)
        ∙ (rw (same_mode_self (get_line s p).area))
