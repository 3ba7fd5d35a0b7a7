-- ===== src/Ftl/Managers.antt =====
-- Line managers that keep the counts of their lines leave an instance consistent, wherever the write
-- pointers stand and whatever the lists and the queues hold.
use nvmevirt_slc_cache.Common.{ℕ, ◌≡◌, refl, sym, ap, ◌∙◌}
use nvmevirt_slc_cache.Ppa.{Ppa}
use nvmevirt_slc_cache.Ftl.State.{
  LineMode, slc_mode, tlc_mode, ConvFtl, LineMgmt, WritePointer, line_at, lm_of,
}
use nvmevirt_slc_cache.Ftl.Mapping.{get_line}
use nvmevirt_slc_cache.Ftl.LineSums.{blk_at}
use nvmevirt_slc_cache.Ftl.Consistency.{IsConsistent}
use nvmevirt_slc_cache.Ftl.Retag.{SameLayout, SameLayout-valid_ppa}

pub record SameCounts (m n : LineMgmt) : Type 0 where
  pub tt_lines : n.tt_lines ≡ m.tt_lines
  pub ipc : (j : ℕ) → (n.lines j).ipc ≡ (m.lines j).ipc
  pub vpc : (j : ℕ) → (n.lines j).vpc ≡ (m.lines j).vpc

pub SameCounts-refl : (m : LineMgmt) → SameCounts m m
SameCounts-refl m = record { tt_lines = refl; ipc = λ j. refl; vpc = λ j. refl }

module _ (s : ConvFtl) (slm lm : LineMgmt) (dyn : LineMode) (w g : WritePointer) where
  abbrev pub managed : ConvFtl
  managed = record s { slm = slm; lm = lm; dyn_slc_mode = dyn; wp = w; gc_wp = g }

  pub managed-SameLayout : SameCounts s.slm slm → SameLayout s managed
  managed-SameLayout a = record {
    layout_mode = refl;
    layout_lines = a.tt_lines;
    layout_params = refl;
  }

  same_line : SameCounts s.slm slm → (p : Ppa) → get_line managed p ≡ get_line s p
  unfolding get_line
  same_line a p = rw a.tt_lines

  line_vpc :
      SameCounts s.slm slm
      → SameCounts s.lm lm
      → (x : LineMode) (j : ℕ) → ((lm_of managed x).lines j).vpc ≡ ((lm_of s x).lines j).vpc
  line_vpc a b slc_mode j = a.vpc j
  line_vpc a b tlc_mode j = b.vpc j

  line_ipc :
      SameCounts s.slm slm
      → SameCounts s.lm lm
      → (x : LineMode) (j : ℕ) → ((lm_of managed x).lines j).ipc ≡ ((lm_of s x).lines j).ipc
  line_ipc a b slc_mode j = a.ipc j
  line_ipc a b tlc_mode j = b.ipc j

  pub managed-IsConsistent :
      (But : ℕ → Type 0)
      → SameCounts s.slm slm
      → SameCounts s.lm lm
      → IsConsistent But s
      → IsConsistent But managed
  managed-IsConsistent But a b c = record {
    counts = record {
      blocks = c.counts.blocks;
      lines = λ n l.
          let k = c.counts.lines n l in
          let p = blk_at 0 0 n in
          let r = get_line s p in
          record {
            line_valid =
                ap (λ x. (line_at managed x).vpc) (same_line a p)
                ∙ line_vpc a b r.area r.idx
                ∙ k.line_valid;
            line_invalid =
                ap (λ x. (line_at managed x).ipc) (same_line a p)
                ∙ line_ipc a b r.area r.idx
                ∙ k.line_invalid;
          };
    };
    owned = λ l n i h.
        let o = c.owned l n i h in
        record {
          valid_address =
              SameLayout-valid_ppa s managed (s.maptbl l) (managed-SameLayout a) ∙ o.valid_address;
          valid_page = o.valid_page;
          owner = o.owner;
        };
    mapped = λ q v h.
        let m = c.mapped q (sym (SameLayout-valid_ppa s managed q (managed-SameLayout a)) ∙ v) h in
        (m.0, record { lpn_in = m.1.lpn_in; is_mapped = m.1.is_mapped; same_page = m.1.same_page });
  }
