-- ===== src/Ftl/Prepare.antt =====
-- `prepare_write_pointer` takes the first free line of its area.
use nvmevirt_slc_cache.Common.{ℕ, ◌≡◌, ap, ◌∙◌, Option, none, some, List, ◌∷◌, sub32}
use nvmevirt_slc_cache.Params.{SsdParams}
use nvmevirt_slc_cache.Ftl.State.{
  LineMode, slc_mode, tlc_mode, IoType, user_io, gc_io, ConvFtl, LineMgmt, LineRef, WritePointer,
  line_at, lm_of, set_lm, set_wp,
}
use nvmevirt_slc_cache.Ftl.Lines.{get_next_free_line, free_area, take_first}
use nvmevirt_slc_cache.Ftl.Advance.{prepare_write_pointer, prepare_mode}
use nvmevirt_slc_cache.Ftl.Fresh.{Fresh}

-- A manager without its first free line.
abbrev pub rest_of : LineMgmt → List ℕ → LineMgmt
rest_of m rest = record m { free_line_list = rest; free_line_cnt = sub32 m.free_line_cnt 1 }

pub get_next_free_line-take :
    (s : ConvFtl) (o : Option (ℕ × LineMgmt))
    → take_first (lm_of s (free_area s)) (lm_of s (free_area s)).free_line_list ≡ o
    → get_next_free_line s ≡ elim o [
      | none ↦ (none, s)
      | some (i, m) ↦ (some (record { area = free_area s; idx = i }), set_lm s (free_area s) m)
    ]
unfolding get_next_free_line
get_next_free_line-take s o e =
    ap
      (λ (x : Option (ℕ × LineMgmt)). elim x [
        | none ↦ (none, s)
        | some (i, m) ↦ (some (record { area = free_area s; idx = i }), set_lm s (free_area s) m)
      ])
      e

-- The first free line is handed out.
pub get_next_free_line-first :
    (s : ConvFtl) (a : LineMode) (i : ℕ) (rest : List ℕ)
    → free_area s ≡ a
    → (lm_of s a).free_line_list ≡ i ∷ rest
    → get_next_free_line s
      ≡ (some (record { area = a; idx = i }), set_lm s a (rest_of (lm_of s a) rest))
unfolding take_first
get_next_free_line-first s a i rest h k =
    get_next_free_line-take s _ (
      ap (take_first (lm_of s (free_area s)))
        (ap (λ (x : LineMode). (lm_of s x).free_line_list) h ∙ k))
    ∙ ap (λ (x : LineMode). taken x) h
  where
    taken : LineMode → Option LineRef × ConvFtl
    taken x = (some (record { area = x; idx = i }), set_lm s x (rest_of (lm_of s x) rest))

pub both : (P : LineMode → Type 0) → P slc_mode → P tlc_mode → (a : LineMode) → P a
both P x y slc_mode = x
both P x y tlc_mode = y

module _ (spp : SsdParams) where
  pub Fresh-taken :
      (s : ConvFtl) (mode a : LineMode) (io : IoType) (w : WritePointer) (rest : List ℕ)
      → Fresh spp s
      → Fresh spp
          (set_wp (set_lm (record s { dyn_slc_mode = mode }) a (rest_of (lm_of s a) rest)) io w)
  Fresh-taken s mode slc_mode user_io w rest f = record {
    flash = f.flash;
    cached = f.cached;
    cache_lines = f.cache_lines;
    unmapped = f.unmapped;
    no_valid = both _ (f.no_valid slc_mode) (f.no_valid tlc_mode);
    no_invalid = both _ (f.no_invalid slc_mode) (f.no_invalid tlc_mode);
  }
  Fresh-taken s mode slc_mode gc_io w rest f = record {
    flash = f.flash;
    cached = f.cached;
    cache_lines = f.cache_lines;
    unmapped = f.unmapped;
    no_valid = both _ (f.no_valid slc_mode) (f.no_valid tlc_mode);
    no_invalid = both _ (f.no_invalid slc_mode) (f.no_invalid tlc_mode);
  }
  Fresh-taken s mode tlc_mode user_io w rest f = record {
    flash = f.flash;
    cached = f.cached;
    cache_lines = f.cache_lines;
    unmapped = f.unmapped;
    no_valid = both _ (f.no_valid slc_mode) (f.no_valid tlc_mode);
    no_invalid = both _ (f.no_invalid slc_mode) (f.no_invalid tlc_mode);
  }
  Fresh-taken s mode tlc_mode gc_io w rest f = record {
    flash = f.flash;
    cached = f.cached;
    cache_lines = f.cache_lines;
    unmapped = f.unmapped;
    no_valid = both _ (f.no_valid slc_mode) (f.no_valid tlc_mode);
    no_invalid = both _ (f.no_invalid slc_mode) (f.no_invalid tlc_mode);
  }

-- The state after a write pointer has taken the first line of its area.
abbrev pub prepared : ConvFtl → IoType → LineMode → ℕ → List ℕ → ConvFtl
prepared s io a i rest =
    let t =
      set_lm (record s { dyn_slc_mode = prepare_mode s.slc_mode io }) a
        (rest_of (lm_of s a) rest) in
    set_wp t io (record {
      curline = record { area = a; idx = i };
      ch = 0;
      lun = 0;
      pg = 0;
      blk = ((lm_of t a).lines i).id;
      pl = 0;
    })

pub Fresh-prepared :
    (spp : SsdParams) (s : ConvFtl) (io : IoType) (a : LineMode) (i : ℕ) (rest : List ℕ)
    → Fresh spp s
    → Fresh spp (prepared s io a i rest)
Fresh-prepared spp s io a i rest f = Fresh-taken spp s _ a io _ rest f

mode_of :
    (s : ConvFtl) (io : IoType)
    → s.slc_mode ≡ slc_mode
    → free_area (record s { dyn_slc_mode = prepare_mode s.slc_mode io }) ≡ prepare_mode slc_mode io
mode_of s user_io h = rw h
mode_of s gc_io h = rw h

pub prepare-first :
    (s : ConvFtl) (io : IoType) (i : ℕ) (rest : List ℕ)
    → s.slc_mode ≡ slc_mode
    → (lm_of s (prepare_mode slc_mode io)).free_line_list ≡ i ∷ rest
    → prepare_write_pointer io s ≡ some (tt, prepared s io (prepare_mode slc_mode io) i rest)
unfolding prepare_write_pointer
prepare-first s io i rest h k = ap place (
    get_next_free_line-first (record s { dyn_slc_mode = prepare_mode s.slc_mode io })
      (prepare_mode slc_mode io) i rest (mode_of s io h) k)
  where
    place : Option LineRef × ConvFtl → Option (Unit {0} × ConvFtl)
    place (found, t) = elim found [
      | none ↦ none
      | some r ↦ some (
        tt,
        set_wp t io
            (record { curline = r; ch = 0; lun = 0; pg = 0; blk = (line_at t r).id; pl = 0 }),
      )
    ]
