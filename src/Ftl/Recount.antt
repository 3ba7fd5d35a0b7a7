-- ===== src/Ftl/Recount.antt =====
-- The counts of the whole instance under the marking of one page.
use nvmevirt_slc_cache.Common.{
  ℕ, ◌+◌, ◌<◌, ◌≡◌, ◌≢◌, inl, inr, refl, sym, ap, ◌∙◌, arith, Bool, true, false, subst, ◌==◌,
  ==_iff, Bool-cases, sum_below_ext,
}
use nvmevirt_slc_cache.Params.{SsdParams}
use nvmevirt_slc_cache.Ppa.{Ppa}
use nvmevirt_slc_cache.Nand.{PageStatus, is_valid, Ssd, get_blk, get_pg}
use nvmevirt_slc_cache.Nand.Access.{same_blk}
use nvmevirt_slc_cache.Ftl.State.{ConvFtl, line_at, pgs_per_blk_of, LineRef}
use nvmevirt_slc_cache.Ftl.Mapping.{page_area, get_line}
use nvmevirt_slc_cache.Ftl.Blocks.{Marked}
use nvmevirt_slc_cache.Ftl.Counts.{IsCounted, pages_with, is_invalid, weight}
use nvmevirt_slc_cache.Ftl.LineSums.{
  blk_at, line_sum, InBlocks, AllCounted, line_sum_change, line_sum_elsewhere,
}

-- The line of a page has the counts `ipc` and `vpc`, every other line keeps its own.
pub record Relined (s : ConvFtl) (p : Ppa) (ipc vpc : ℕ) (t : ConvFtl) : Type 0 where
  pub mode : t.slc_mode ≡ s.slc_mode
  pub slc_lines : t.slm.tt_lines ≡ s.slm.tt_lines
  pub here_invalid : (line_at t (get_line s p)).ipc ≡ ipc
  pub here_valid : (line_at t (get_line s p)).vpc ≡ vpc
  pub lines_elsewhere :
      (b : ℕ)
      → b ≢ p.blk
      → ((line_at t (get_line s (blk_at 0 0 b))).ipc ≡ (line_at s (get_line s (blk_at 0 0 b))).ipc)
        × ((line_at t (get_line s (blk_at 0 0 b))).vpc
            ≡ (line_at s (get_line s (blk_at 0 0 b))).vpc)

same_blk_get : (d : Ssd) (q p : Ppa) → same_blk q p ≡ true → get_blk d q ≡ get_blk d p
unfolding get_blk
same_blk_get d q p h = rw (e.0, e.1, e.2, e.3)
  where
    e : (q.ch ≡ p.ch) × (q.lun ≡ p.lun) × (q.pl ≡ p.pl) × (q.blk ≡ p.blk)
    e = ground arith

pub IsCounted-elsewhere :
    (n : ℕ) (d e : Ssd) (p q : Ppa) {new : PageStatus} {i v : ℕ}
    → Marked d p new i v e
    → same_blk q p ≡ false
    → IsCounted n (get_blk d q)
    → IsCounted n (get_blk e q)
unfolding get_pg get_blk
IsCounted-elsewhere n d e p q {new = new} m h c = record {
  valid_pages = m.valid_elsewhere q h ∙ c.valid_pages ∙ same is_valid;
  invalid_pages = m.invalid_elsewhere q h ∙ c.invalid_pages ∙ same is_invalid;
}
  where
    status : (j : ℕ) → ((get_blk d q).pg j).status ≡ ((get_blk e q).pg j).status
    status j = sym (m.pages (record q { pg = j }) ∙ (rw h))

    same :
        (f : PageStatus → Bool) → pages_with f n (get_blk d q).pg ≡ pages_with f n (get_blk e q).pg
    same f = sum_below_ext _ _ n (λ j _. ap (λ (a : PageStatus). weight (f a)) (status j))

same_blk_area : (s : ConvFtl) (q p : Ppa) → same_blk q p ≡ true → page_area s q ≡ page_area s p
same_blk_area s q p h = rw e
  where
    e : q.blk ≡ p.blk
    e = ground arith

pub get_line_of_blk : (s : ConvFtl) (q : Ppa) → get_line s (blk_at 0 0 q.blk) ≡ get_line s q
unfolding get_line
get_line_of_blk s q = refl

get_line_kept :
    (s t : ConvFtl) (q : Ppa)
    → t.slc_mode ≡ s.slc_mode
    → t.slm.tt_lines ≡ s.slm.tt_lines
    → get_line t q ≡ get_line s q
unfolding get_line
get_line_kept s t q h k = rw (h, k)

per_blk_kept :
    (s t : ConvFtl) (q : Ppa)
    → t.slc_mode ≡ s.slc_mode
    → t.ssd.sp ≡ s.ssd.sp
    → pgs_per_blk_of t.ssd.sp (page_area t q) ≡ pgs_per_blk_of s.ssd.sp (page_area s q)
per_blk_kept s t q h k = rw (h, k)

-- Every block of the array is counted right after one page of one of them is marked.
pub recount_blocks :
    (s : ConvFtl) (e : Ssd) (p : Ppa) {new : PageStatus} {i v : ℕ}
    → AllCounted s
    → Marked s.ssd p new i v e
    → IsCounted (pgs_per_blk_of s.ssd.sp (page_area s p)) (get_blk e p)
    → (q : Ppa) → InBlocks s.ssd.sp q
    → IsCounted (pgs_per_blk_of s.ssd.sp (page_area s q)) (get_blk e q)
recount_blocks s e p all m c q w = elim (Bool-cases (same_blk q p)) [
  | inl h ↦ rw (same_blk_area s q p h, same_blk_get e q p h) c
  | inr h ↦ IsCounted-elsewhere _ s.ssd e p q m h (all.blocks q w)
]

module _ (s t : ConvFtl) (p : Ppa) {new : PageStatus} {i v li lv : ℕ} (all : AllCounted s)
    (here : InBlocks s.ssd.sp p) (m : Marked s.ssd p new i v t.ssd) (r : Relined s p li lv t) where
  -- The line of the page itself.
  recount_here :
      li + (get_blk s.ssd p).ipc ≡ (line_at s (get_line s p)).ipc + i
      → lv + (get_blk s.ssd p).vpc ≡ (line_at s (get_line s p)).vpc + v
      → ((line_at t (get_line s (blk_at 0 0 p.blk))).vpc
          ≡ line_sum (λ x. x.vpc) s.ssd.sp t.ssd p.blk)
        × ((line_at t (get_line s (blk_at 0 0 p.blk))).ipc
            ≡ line_sum (λ x. x.ipc) s.ssd.sp t.ssd p.blk)
  unfolding get_line
  recount_here hi hv =
      let old = all.lines p.blk here.blk_in in
      let valid = line_sum_change (λ x. x.vpc) s.ssd.sp s.ssd t.ssd p here m.valid_elsewhere in
      let invalid = line_sum_change (λ x. x.ipc) s.ssd.sp s.ssd t.ssd p here m.invalid_elsewhere in
      (
        r.here_valid ∙ (omega (arith, old.line_valid, valid, m.valid_here, hv)),
        r.here_invalid ∙ (omega (arith, old.line_invalid, invalid, m.invalid_here, hi)),
      )

  recount_lines :
      li + (get_blk s.ssd p).ipc ≡ (line_at s (get_line s p)).ipc + i
      → lv + (get_blk s.ssd p).vpc ≡ (line_at s (get_line s p)).vpc + v
      → (b : ℕ) → b < s.ssd.sp.blks_per_pl
      → ((line_at t (get_line s (blk_at 0 0 b))).vpc ≡ line_sum (λ x. x.vpc) s.ssd.sp t.ssd b)
        × ((line_at t (get_line s (blk_at 0 0 b))).ipc ≡ line_sum (λ x. x.ipc) s.ssd.sp t.ssd b)
  recount_lines hi hv b lb = elim (Bool-cases (b == p.blk)) [
    | inl h ↦ let e : b ≡ p.blk = (==_iff b p.blk).0 h in rw e (recount_here hi hv)
    | inr h ↦
        let ne : b ≢ p.blk = ground arith in
        let old = all.lines b lb in
        let kept = r.lines_elsewhere b ne in
        (
          kept.1
              ∙ old.line_valid
              ∙ sym (line_sum_elsewhere (λ x. x.vpc) s.ssd.sp s.ssd t.ssd p b ne m.valid_elsewhere),
          kept.0
              ∙ old.line_invalid
              ∙ sym
                  (line_sum_elsewhere (λ x. x.ipc) s.ssd.sp s.ssd t.ssd p b ne m.invalid_elsewhere),
        )
  ]

  -- Marking and the lines' update together keep every count right.
  pub recount :
      IsCounted (pgs_per_blk_of s.ssd.sp (page_area s p)) (get_blk t.ssd p)
      → li + (get_blk s.ssd p).ipc ≡ (line_at s (get_line s p)).ipc + i
      → lv + (get_blk s.ssd p).vpc ≡ (line_at s (get_line s p)).vpc + v
      → AllCounted t
  recount c hi hv = record {
    blocks = λ q w.
        subst (λ n. IsCounted n (get_blk t.ssd q)) (sym (per_blk_kept s t q r.mode m.params))
          (recount_blocks s t.ssd p all m c q (subst (λ spp. InBlocks spp q) m.params w));
    lines = λ b lb.
        let new = recount_lines hi hv b (rw m.params at lb) in
        record {
          line_valid =
              ap (λ (x : LineRef). (line_at t x).vpc)
                (get_line_kept s t (blk_at 0 0 b) r.mode r.slc_lines)
              ∙ new.0
              ∙ ap (λ (spp : SsdParams). line_sum (λ x. x.vpc) spp t.ssd b) (sym m.params);
          line_invalid =
              ap (λ (x : LineRef). (line_at t x).ipc)
                (get_line_kept s t (blk_at 0 0 b) r.mode r.slc_lines)
              ∙ new.1
              ∙ ap (λ (spp : SsdParams). line_sum (λ x. x.ipc) spp t.ssd b) (sym m.params);
        };
  }
