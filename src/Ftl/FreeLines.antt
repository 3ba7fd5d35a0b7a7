-- ===== src/Ftl/FreeLines.antt =====
-- The lists of free and full lines against the counts kept beside them.
use nvmevirt_slc_cache.Common.{
  ℕ, zero, suc, ◌+◌, ◌^◌, ◌<◌, ◌≡◌, ◌⊎◌, inl, inr, refl, sym, ap, ◌∙◌, arith, true, ltb, subst,
  ◌==◌, ==_iff, Bool-cases, Returns, Option, none, some, List, [], ◌∷◌, length, list_add_tail,
  length-list_add_tail, u32,
}
use nvmevirt_slc_cache.Ppa.{Ppa}
use nvmevirt_slc_cache.Ftl.State.{
  LineMode, slc_mode, tlc_mode, ConvFtl, LineMgmt, LineRef, Line, Pqueue, line_at, lm_of, set_lm,
  set_line, victim_line_callbacks,
}
use nvmevirt_slc_cache.Ftl.Mapping.{page_area, get_line}
use nvmevirt_slc_cache.Ftl.Lines.{
  get_next_free_line, mark_line_free, indices, fresh_lines, free_area, take_first,
}
use nvmevirt_slc_cache.Ftl.Advance.{retire_line}
use nvmevirt_slc_cache.Ftl.Prepare.{rest_of, get_next_free_line-first, get_next_free_line-take}
use nvmevirt_slc_cache.Ftl.Relines.{get_line_area}

-- The counts of a manager are the lengths of its lists, and fit their 32 bits.
pub record IsListed (m : LineMgmt) : Type 0 where
  pub free : m.free_line_cnt ≡ length m.free_line_list
  pub full : m.full_line_cnt ≡ length m.full_line_list
  pub free_fits : length m.free_line_list < 2 ^ 32
  pub full_fits : length m.full_line_list < 2 ^ 32

-- A free line is taken off.
rest_of-IsListed :
    (m : LineMgmt) (i : ℕ) (rest : List ℕ)
    → m.free_line_list ≡ i ∷ rest
    → IsListed m
    → IsListed (rest_of m rest)
rest_of-IsListed m i rest e h =
    let n : length m.free_line_list ≡ length rest + 1 = ap length e ∙ (omega arith) in
    record {
      free = omega (arith, h.free, h.free_fits, n);
      full = h.full;
      free_fits = omega (arith, h.free_fits, n);
      full_fits = h.full_fits;
    }

-- The managers of both areas are counted right.
pub record BothListed (s : ConvFtl) : Type 0 where
  pub slc : IsListed s.slm
  pub tlc : IsListed s.lm

area-IsListed : (s : ConvFtl) (a : LineMode) → BothListed s → IsListed (lm_of s a)
area-IsListed s slc_mode h = h.slc
area-IsListed s tlc_mode h = h.tlc

set_lm-BothListed :
    (s : ConvFtl) (a : LineMode) (m : LineMgmt)
    → BothListed s
    → IsListed m
    → BothListed (set_lm s a m)
set_lm-BothListed s slc_mode m h k = record { slc = k; tlc = h.tlc }
set_lm-BothListed s tlc_mode m h k = record { slc = h.slc; tlc = k }

-- What `get_next_free_line` does with a list of free lines.
abbrev pub Taken : ConvFtl → List ℕ → Option LineRef × ConvFtl → Type 0
Taken s [] r = r ≡ (none, s)
Taken s (i ∷ rest) r =
    (r.0 ≡ some (record { area = free_area s; idx = i }))
    × ((lm_of r.1 (free_area s)).free_line_list ≡ rest)
    × BothListed r.1

-- In an instance whose list counts are right, if a line is free, the one that is free the longest
-- is handed out and leaves the list, and the counts stay right; if none is, nothing changes.
pub get_next_free_line-Taken :
    (s : ConvFtl)
    → BothListed s
    → Taken s (lm_of s (free_area s)).free_line_list (get_next_free_line s)
unfolding take_first
get_next_free_line-Taken s h = go (lm_of s (free_area s)).free_line_list refl
  where
    go :
        (l : List ℕ) → (lm_of s (free_area s)).free_line_list ≡ l → Taken s l (get_next_free_line s)
    go [] e = get_next_free_line-take s none (ap (take_first (lm_of s (free_area s))) e)
    go (i ∷ rest) e =
        let same = get_next_free_line-first s (free_area s) i rest refl e in
        subst (Taken s (i ∷ rest)) (sym same) (
          refl,
          list_after (free_area s),
          set_lm-BothListed s (free_area s) _ h
              (rest_of-IsListed (lm_of s (free_area s)) i rest e (area-IsListed s (free_area s) h)),
        )
      where
        list_after :
            (a : LineMode) → (lm_of (set_lm s a (rest_of (lm_of s a) rest)) a).free_line_list ≡ rest
        list_after slc_mode = refl
        list_after tlc_mode = refl

length-indices : (i n : ℕ) → length (indices i n) ≡ n
length-indices i zero = refl
length-indices i (suc n) = omega (arith, length-indices (i + 1) n)

-- A manager that `init_lines` sets up is counted right.
pub fresh_lines-IsListed : (n offset : ℕ) → n < 2 ^ 32 → IsListed (fresh_lines n offset)
unfolding fresh_lines
fresh_lines-IsListed n offset h = record {
  free = sym (length-indices 0 n);
  full = refl;
  free_fits = omega (arith, length-indices 0 n);
  full_fits = omega arith;
}

-- Line `i` is filed: without invalid pages at the end of the full list, and otherwise by an insertion into
-- the victim queue, whose count goes up by one.
pub record Retired (pq : Pqueue) (i : ℕ) (m n : LineMgmt) : Type 0 where
  pub listed : IsListed n
  pub free_same : n.free_line_list ≡ m.free_line_list
  pub filed :
      (((m.lines i).ipc ≡ 0)
        × (n.full_line_list ≡ list_add_tail i m.full_line_list)
        × (n.victim_line_pq ≡ m.victim_line_pq)
        × (n.victim_line_cnt ≡ m.victim_line_cnt)
        × (n.lines ≡ m.lines))
      ⊎ ((0 < (m.lines i).ipc)
          × (n.full_line_list ≡ m.full_line_list)
          × ((n.victim_line_pq, n.lines)
              ≡ pq.insert victim_line_callbacks m.victim_line_pq m.lines i)
          × (n.victim_line_cnt ≡ u32 (m.victim_line_cnt + 1)))

-- A used-up line, all of whose pages are valid or invalid, is filed without a failed assertion:
-- without invalid pages it goes to the end of the full list, and otherwise it is inserted into
-- the victim queue, whose count goes up by one; the list that it does not go to and the free list
-- stay, and the counts of the free and the full list stay right, while the full list has room for
-- one more.
pub retire_line-Retired :
    (pq : Pqueue) (per_line i : ℕ) (m : LineMgmt)
    → IsListed m
    → length m.full_line_list + 1 < 2 ^ 32
    → (m.lines i).vpc + (m.lines i).ipc ≡ per_line
    → Returns (Retired pq i m) (retire_line pq per_line i m)
unfolding retire_line
retire_line-Retired pq per_line i m h room written =
    elim (Bool-cases ((m.lines i).vpc == per_line)) [
      | inl e ↦
          let all : (m.lines i).vpc ≡ per_line = (==_iff _ _).0 e in
          let none_left : ((m.lines i).ipc == 0) ≡ true = (==_iff _ _).1 (omega arith) in
          rw (e, none_left)
            (record {
              listed = record {
                free = h.free;
                full = omega (arith, h.full, length-list_add_tail i m.full_line_list);
                free_fits = h.free_fits;
                full_fits = omega (arith, length-list_add_tail i m.full_line_list);
              };
              free_same = refl;
              filed = inl (omega (arith, all, written), refl, refl, refl, refl);
            })
      | inr e ↦
          let fewer : ltb (m.lines i).vpc per_line ≡ true = ground arith in
          let some_left : ltb 0 (m.lines i).ipc ≡ true = ground arith in
          let sum : ((m.lines i).vpc + (m.lines i).ipc == per_line) ≡ true =
            (==_iff _ _).1 written in
          rw (e, fewer, some_left, sum)
            (record {
              listed = record {
                free = h.free;
                full = h.full;
                free_fits = h.free_fits;
                full_fits = h.full_fits;
              };
              free_same = refl;
              filed = inr (ground (arith, some_left), refl, refl, refl);
            })
    ]

-- What `mark_line_free` makes of the state, with the two ways in which it finds the area.
abbrev emptied : ConvFtl → ℕ → LineMode → LineMode → ConvFtl
emptied s i a b =
    let r : LineRef = record { area = a; idx = i } in
    let t = set_line s r (record (line_at s r) { ipc = 0; vpc = 0 }) in
    let m = lm_of t b in
    set_lm t b (record m {
      free_line_list = list_add_tail i m.free_line_list;
      free_line_cnt = u32 (m.free_line_cnt + 1);
    })

abbrev Emptied : ConvFtl → ℕ → LineMode → LineMode → Type 0
Emptied s i a b =
    BothListed (emptied s i a b)
    × ((lm_of (emptied s i a b) b).free_line_list ≡ list_add_tail i (lm_of s b).free_line_list)
    × ((line_at (emptied s i a b) (record { area = a; idx = i })).ipc ≡ 0)
    × ((line_at (emptied s i a b) (record { area = a; idx = i })).vpc ≡ 0)

one_more-IsListed :
    (m : LineMgmt) (lines : ℕ → Line) (i : ℕ)
    → IsListed m
    → length m.free_line_list + 1 < 2 ^ 32
    → IsListed (record m {
      lines = lines;
      free_line_list = list_add_tail i m.free_line_list;
      free_line_cnt = u32 (m.free_line_cnt + 1);
    })
one_more-IsListed m lines i h room = record {
  free = omega (arith, h.free, length-list_add_tail i m.free_line_list);
  full = h.full;
  free_fits = omega (arith, length-list_add_tail i m.free_line_list);
  full_fits = h.full_fits;
}

Emptied-same :
    (s : ConvFtl) (i : ℕ) (a : LineMode)
    → BothListed s
    → length (lm_of s a).free_line_list + 1 < 2 ^ 32
    → Emptied s i a a
Emptied-same s i slc_mode h room = (
  record { slc = one_more-IsListed s.slm _ i h.slc room; tlc = h.tlc },
  refl,
  (ground arith),
  (ground arith),
)
Emptied-same s i tlc_mode h room = (
  record { slc = h.slc; tlc = one_more-IsListed s.lm _ i h.tlc room },
  refl,
  (ground arith),
  (ground arith),
)

-- In an instance whose list counts are right and have room for one more, an emptied line goes to
-- the end of the free list of its area, its counts are reset, and the counts of the lists stay
-- right.
pub mark_line_free-BothListed :
    (s : ConvFtl) (p : Ppa)
    → s.slm.tt_lines ≡ s.ssd.sp.tt_lines_slc
    → BothListed s
    → length (lm_of s (page_area s p)).free_line_list + 1 < 2 ^ 32
    → BothListed (mark_line_free p s)
      × ((lm_of (mark_line_free p s) (page_area s p)).free_line_list
          ≡ list_add_tail (get_line s p).idx (lm_of s (page_area s p)).free_line_list)
      × ((line_at (mark_line_free p s) (get_line s p)).ipc ≡ 0)
      × ((line_at (mark_line_free p s) (get_line s p)).vpc ≡ 0)
unfolding mark_line_free
mark_line_free-BothListed s p slc h room =
    subst (Emptied s (get_line s p).idx (get_line s p).area) (get_line_area s p slc) (
      Emptied-same s (get_line s p).idx (get_line s p).area h (
        subst (λ (a : LineMode). length (lm_of s a).free_line_list + 1 < 2 ^ 32)
          (sym (get_line_area s p slc)) room))
