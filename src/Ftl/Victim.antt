-- ===== src/Ftl/Victim.antt =====
-- The choice of a victim line: `age_levelize`, `calculate_cost_benefit_val`, `select_victim_line` and
-- `select_victim_line_slc` of conv_ftl.c. The file itself defines CB, so the TLC area is collected by
-- cost and benefit; the SLC cache, for which neither CB2 nor RD2 is defined, by fewest valid pages.
use nvmevirt_slc_cache.Common.{
  ℕ, ◌+◌, ◌-◌, ◌*◌, ◌/◌, ◌^◌, Bool, not, ◌&&◌, Option, none, some, List, [], ◌∷◌, ltb, ◌==◌,
  if◌then◌else◌, update, u32, sub32, sub64,
}
use nvmevirt_slc_cache.Params.{SsdParams}
use nvmevirt_slc_cache.Nand.{Machine}
use nvmevirt_slc_cache.Ftl.State.{
  slc_mode, tlc_mode, Line, LineRef, LineMgmt, ConvFtl, Pqueue, victim_line_callbacks,
}

-- US(a)
abbrev pub us : ℕ → ℕ
us a = a * 1000 * 1000

unfoldable pub age_levelize : ℕ → ℕ
age_levelize age_us =
    if ltb age_us (us 5)
    then 1
    else if ltb age_us (us 10)
    then 5
    else if ltb age_us (us 25)
    then 10
    else if ltb age_us (us 50)
    then 20
    else if ltb age_us (us 100)
    then 40
    else if ltb age_us (us 200)
    then 80
    else 250

abbrev pub scaler : ℕ
scaler = 1_000_000_000_000

-- The value of a line at the time `now`, for lines with at most `pgs_per_line` valid pages.
unfoldable pub calculate_cost_benefit_val : SsdParams → ℕ → Line → ℕ
unfolding age_levelize
calculate_cost_benefit_val spp now l =
    let age = age_levelize (sub64 now l.mtime / 1000) in
    if l.vpc == spp.pgs_per_line
    then scaler * 10
    else l.vpc * scaler / ((spp.pgs_per_line - l.vpc) * age)

-- The best line so far, its value, and the count of clock readings.
pub record Best : Type 0 where
  pub line : Option ℕ
  pub cb_min : ℕ
  pub reads : ℕ

-- __LONG_LONG_MAX__
abbrev pub long_long_max : ℕ
long_long_max = 2 ^ 63 - 1

module _ (clock : ℕ → ℕ) (spp : SsdParams) (lines : ℕ → Line) where
  -- One round of the loop: lines with no invalid page are passed over, with no reading of the clock.
  unfoldable pub weigh : Best → ℕ → Best
  weigh b i =
      let value = calculate_cost_benefit_val spp (clock b.reads) (lines i) in
      if (lines i).ipc == 0
      then b
      else if ltb value b.cb_min
      then record { line = some i; cb_min = value; reads = b.reads + 1 }
      else record b { reads = b.reads + 1 }

  unfoldable pub scan_victims : Best → List ℕ → Best
  unfolding weigh
  scan_victims b [] = b
  scan_victims b (i ∷ rest) = scan_victims (weigh b i) rest

module _ (m : Machine) (pq : Pqueue) where
  -- The statistics of the age of a victim, in seconds.
  unfoldable pub count_age : ℕ → Line → (ℕ → ℕ) → ℕ → ℕ
  count_age now l age_cnt =
      let age = sub64 now l.mtime / 1_000_000_000 in
      let slot = if ltb age 200 then age else 200 in update age_cnt slot (u32 (age_cnt slot + 1))

  -- The victim leaves the queue: its `pos` is 0 again.
  unfoldable pub take_victim : List ℕ → (ℕ → Line) → ℕ → LineMgmt → LineMgmt
  take_victim d lines i lm = record lm {
    victim_line_pq = d;
    lines = update lines i (record (lines i) { pos = 0 });
    victim_line_cnt = sub32 lm.victim_line_cnt 1;
  }

  -- `select_victim_line`, as built with CB; it does not read `force`.
  unfoldable pub select_victim_line : Bool → ConvFtl → Option LineRef × ConvFtl
  unfolding scan_victims count_age take_victim
  select_victim_line force s =
      let best =
        scan_victims m.ktime_get_ns s.ssd.sp s.lm.lines
          (record { line = none; cb_min = long_long_max; reads = s.ssd.reads })
          s.lm.victim_line_pq in
      let ssd = record (s.ssd) { reads = best.reads } in
      elim best.line [
        | none ↦ (none, record s { ssd = ssd })
        | some i ↦
            let (d, lines) = pq.remove victim_line_callbacks s.lm.victim_line_pq s.lm.lines i in
            let lm = take_victim d lines i s.lm in
            (
              some (record { area = tlc_mode; idx = i }),
              record s {
                ssd = record ssd { reads = best.reads + 1 };
                lm = lm;
                age_cnt = count_age (m.ktime_get_ns best.reads) (lm.lines i) s.age_cnt;
              },
            )
      ]

  first_full : LineMgmt → List ℕ → Option LineRef × LineMgmt
  first_full slm [] = (none, slm)
  first_full slm (i ∷ rest) = (
    some (record { area = slc_mode; idx = i }),
    record slm { full_line_list = rest; full_line_cnt = sub32 slm.full_line_cnt 1 },
  )

  -- `select_victim_line_slc`: the head of the queue, if it is worth it or forced, and the first full
  -- line if the queue is empty.
  unfoldable pub select_victim_line_slc : Bool → ConvFtl → Option LineRef × ConvFtl
  unfolding take_victim first_full
  select_victim_line_slc force s =
      elim (pq.peek victim_line_callbacks s.slm.victim_line_pq s.slm.lines) [
        | none ↦ let (r, slm) = first_full s.slm s.slm.full_line_list in (r, record s { slm = slm })
        | some i ↦
            let (d, lines) = pq.pop victim_line_callbacks s.slm.victim_line_pq s.slm.lines in
            if not force && ltb (s.ssd.sp.pgs_per_line_slc / 8) (s.slm.lines i).vpc
            then (none, s)
            else (
              some (record { area = slc_mode; idx = i }),
              record s { slm = take_victim d lines i s.slm },
            )
      ]
