-- ===== src/Ftl/Onward.antt =====
-- What `advance_write_pointer` changes: a used-up line is filed, a free one taken, the pointer moved.
use nvmevirt_slc_cache.Common.{
  ℕ, ◌+◌, ◌≤◌, ◌<◌, ◌≡◌, inl, inr, refl, ap, ◌∙◌, arith, true, ltb, ◌==◌, ==_iff, Bool-cases,
  Returns, Option, none, some, List, ◌∷◌, ◌&&◌, if◌then◌else◌,
}
use nvmevirt_slc_cache.Params.{SsdParams}
use nvmevirt_slc_cache.Ftl.State.{
  LineMode, slc_mode, tlc_mode, IoType, user_io, gc_io, ConvFtl, LineMgmt, LineRef, Pqueue,
  WritePointer, line_at, lm_of, set_lm, set_wp, get_wp,
}
use nvmevirt_slc_cache.Ftl.Advance.{io_mode, retire_line, take_line}
use nvmevirt_slc_cache.Ftl.Addresses.{OnPage}
use nvmevirt_slc_cache.Ftl.Queue.{KeepsCounts}
use nvmevirt_slc_cache.Ftl.Prepare.{rest_of, get_next_free_line-first}
use nvmevirt_slc_cache.Ftl.Consistency.{IsConsistent, All}
use nvmevirt_slc_cache.Ftl.Retag.{SameLayout}
use nvmevirt_slc_cache.Ftl.Managers.{
  SameCounts, SameCounts-refl, managed, managed-IsConsistent, managed-SameLayout,
}

-- The block numbers of an area.
abbrev pub InArea : SsdParams → LineMode → ℕ → Type 0
InArea spp slc_mode b = b < spp.tt_lines_slc
InArea spp tlc_mode b = spp.tt_lines_slc ≤ b

-- A write pointer on a page of a block of its area.
pub record OnArea (spp : SsdParams) (a : LineMode) (w : WritePointer) : Type 0 where
  pub page : OnPage spp w
  pub blk_of_area : InArea spp a w.blk

-- A line of the area is free, and its id is a block of the area.
pub record HasFree (s : ConvFtl) (a : LineMode) : Type 0 where
  pub first : ℕ
  pub others : List ℕ
  pub listed : (lm_of s a).free_line_list ≡ first ∷ others
  pub id_in : ((lm_of s a).lines first).id < s.ssd.sp.blks_per_pl
  pub id_of_area : InArea s.ssd.sp a ((lm_of s a).lines first).id

-- The write pointer moved on: the flash, the tables and the consistency stay.
pub record Onward (s : ConvFtl) (io : IoType) (t : ConvFtl) : Type 0 where
  pub consistent : IsConsistent All t
  pub layout : SameLayout s t
  pub flash : t.ssd ≡ s.ssd
  pub table : t.maptbl ≡ s.maptbl
  pub pointer : OnArea t.ssd.sp (io_mode io) (get_wp t io)

-- The manager of the area and the write pointer replaced.
abbrev pub moved : ConvFtl → IoType → LineMgmt → LineMode → WritePointer → ConvFtl
moved s user_io m dyn w = managed s m s.lm dyn w s.gc_wp
moved s gc_io m dyn w = managed s s.slm m dyn s.wp w

pub moved-Onward :
    (s : ConvFtl) (io : IoType) (m : LineMgmt) (dyn : LineMode) (w : WritePointer)
    → IsConsistent All s
    → SameCounts (lm_of s (io_mode io)) m
    → OnArea s.ssd.sp (io_mode io) w
    → Onward s io (moved s io m dyn w)
moved-Onward s user_io m dyn w c k o = record {
  consistent = managed-IsConsistent s m s.lm dyn w s.gc_wp All k (SameCounts-refl s.lm) c;
  layout = managed-SameLayout s m s.lm dyn w s.gc_wp k;
  flash = refl;
  table = refl;
  pointer = o;
}
moved-Onward s gc_io m dyn w c k o = record {
  consistent = managed-IsConsistent s s.slm m dyn s.wp w All (SameCounts-refl s.slm) k c;
  layout = managed-SameLayout s s.slm m dyn s.wp w (SameCounts-refl s.slm);
  flash = refl;
  table = refl;
  pointer = o;
}

-- What filing a line leaves alone.
pub record Filed (m n : LineMgmt) : Type 0 where
  pub counts : SameCounts m n
  pub free : n.free_line_list ≡ m.free_line_list
  pub id : (j : ℕ) → (n.lines j).id ≡ (m.lines j).id

pub retire_line-Filed :
    (pq : Pqueue) (per_line i : ℕ) (m : LineMgmt)
    → KeepsCounts pq
    → (m.lines i).vpc + (m.lines i).ipc ≡ per_line
    → Returns (Filed m) (retire_line pq per_line i m)
unfolding retire_line
retire_line-Filed pq per_line i m laws written = elim (Bool-cases ((m.lines i).vpc == per_line)) [
  | inl e ↦
      let all : (m.lines i).vpc ≡ per_line = (==_iff _ _).0 e in
      let none_left : ((m.lines i).ipc == 0) ≡ true = (==_iff _ _).1 (omega arith) in
      rw (e, none_left)
        (record {
          counts = record { tt_lines = refl; ipc = λ j. refl; vpc = λ j. refl };
          free = refl;
          id = λ j. refl;
        })
  | inr e ↦
      let fewer : ltb (m.lines i).vpc per_line ≡ true = ground arith in
      let some_left : ltb 0 (m.lines i).ipc ≡ true = ground arith in
      let sum : ((m.lines i).vpc + (m.lines i).ipc == per_line) ≡ true = (==_iff _ _).1 written in
      rw (e, fewer, some_left, sum)
        (record {
          counts = record {
            tt_lines = refl;
            ipc = λ j. laws.insert_ipc m.victim_line_pq m.lines i j;
            vpc = λ j. laws.insert_vpc m.victim_line_pq m.lines i j;
          };
          free = refl;
          id = λ j. laws.insert_id m.victim_line_pq m.lines i j;
        })
]

-- A used-up pointer on the line that it takes.
abbrev pub onto : LineMode → LineMgmt → ℕ → WritePointer → WritePointer
onto a m i w = record w { curline = record { area = a; idx = i }; blk = (m.lines i).id }

pub take_line-first :
    (s : ConvFtl) (io : IoType) (m : LineMgmt) (w : WritePointer) (i : ℕ) (rest : List ℕ)
    → s.slc_mode ≡ slc_mode
    → m.free_line_list ≡ i ∷ rest
    → ltb w.blk s.ssd.sp.blks_per_pl ≡ true
    → ltb (m.lines i).id s.ssd.sp.blks_per_pl ≡ true
    → (w.pl == 0) ≡ true
    → take_line io w (set_lm s (io_mode io) m)
      ≡ some (tt, moved s io (rest_of m rest) (io_mode io) (onto (io_mode io) m i w))
unfolding take_line
take_line-first s user_io m w i rest h e b d p =
    ap place_on (
      get_next_free_line-first (record s { slm = m; dyn_slc_mode = slc_mode }) slc_mode i rest
        (rw h) e)
    ∙ (rw (b, d, p))
  where
    place_on : Option LineRef × ConvFtl → Option (Unit {0} × ConvFtl)
    place_on (found, t) =
        if ltb w.blk s.ssd.sp.blks_per_pl
        then elim found [
          | none ↦ none
          | some r ↦
              let id = (line_at t r).id in
              if ltb id s.ssd.sp.blks_per_pl && w.pl == 0
              then some (tt, set_wp t user_io (record w { curline = r; blk = id }))
              else none
        ]
        else none
take_line-first s gc_io m w i rest h e b d p =
    ap place_on (
      get_next_free_line-first (record s { lm = m; dyn_slc_mode = tlc_mode }) tlc_mode i rest (rw h)
        e)
    ∙ (rw (b, d, p))
  where
    place_on : Option LineRef × ConvFtl → Option (Unit {0} × ConvFtl)
    place_on (found, t) =
        if ltb w.blk s.ssd.sp.blks_per_pl
        then elim found [
          | none ↦ none
          | some r ↦
              let id = (line_at t r).id in
              if ltb id s.ssd.sp.blks_per_pl && w.pl == 0
              then some (tt, set_wp t gc_io (record w { curline = r; blk = id }))
              else none
        ]
        else none
