-- ===== src/Nand/Command.antt =====
-- The effect of a whole flash command, `ssd_advance_nand`.
use nvmevirt_slc_cache.Common.{
  ℕ, ◌+◌, ◌^◌, ◌≤◌, ◌<◌, ◌≡◌, ◌≢◌, ◌⊎◌, refl, ap, ◌∙◌, max, true, false, some, arith, ◌==◌,
  if◌then◌else◌, u64, update_all, Returns, Returns-if, Returns-elim, Bool-cases, inl, inr, return,
  ◌>>=◌,
}
use nvmevirt_slc_cache.Ppa.{mapped_ppa}
use nvmevirt_slc_cache.Nand.State.{NandLun, SsdChannel, Ssd, Machine, read_cpu_clock, get_lun}
use nvmevirt_slc_cache.Nand.Advance.{
  NandCmd, NandCommand, nand_read, nand_write, nand_erase, nand_nop, unsupported, read_latency,
  write_latency, erase_latency, set_lun_avail, run_nand, ssd_advance_nand,
}
use nvmevirt_slc_cache.Channel.Invariant.{IsValid}
use nvmevirt_slc_cache.Nand.Access.{lun-set_lun, get_lun-set_lun, lun-set_lun_ne}
use nvmevirt_slc_cache.Nand.Timing.{
  ModelsValid, SameFlash, Transferred, ReadDone, request_channel-Transferred,
  read_transfer-ReadDone,
}

-- What a command that starts at `start` leaves: its die is busy until a time not before `start` and
-- not before it was free, the command completes no earlier, and no other die and no page changes.
pub record Advanced (s : Ssd) (c : NandCmd) (start : ℕ) (r : ℕ × Ssd) : Type 0 where
  pub models : ModelsValid r.1
  pub sp_same : r.1.sp ≡ s.sp
  pub buffer_same : r.1.write_buffer ≡ s.write_buffer
  pub after_start : start ≤ (get_lun r.1 c.ppa).next_lun_avail_time
  pub after_busy : (get_lun s c.ppa).next_lun_avail_time ≤ (get_lun r.1 c.ppa).next_lun_avail_time
  pub completed : (get_lun r.1 c.ppa).next_lun_avail_time ≤ r.0
  pub planes_same : (i j k : ℕ) → ((r.1.ch i).lun j).pl k ≡ ((s.ch i).lun j).pl k
  pub other_dies : (i j : ℕ) → (i ≢ c.ppa.ch) ⊎ (j ≢ c.ppa.lun) → (r.1.ch i).lun j ≡ (s.ch i).lun j

-- Times and sizes that keep the sums below 2^63.
pub record Fits (m : Machine) (s : Ssd) (c : NandCmd) (start : ℕ) : Type 0 where
  pub start_fits : start < 2 ^ 61
  pub avail_fits : (get_lun s c.ppa).next_lun_avail_time < 2 ^ 61
  pub read_fits : read_latency m s c < 2 ^ 32
  pub write_fits : write_latency m s c.ppa < 2 ^ 32
  pub erase_fits : erase_latency m s c.ppa < 2 ^ 32
  pub xfer_fits : c.xfer_size < 2 ^ 28
  pub chunk : 0 < s.sp.max_ch_xfer_size

-- A state whose dies are those of `s`, once the die of `c` is given the time `t`.
set_avail-Advanced :
    (m : Machine) (s s' : Ssd) (c : NandCmd) (start t r : ℕ)
    → ModelsValid s'
    → SameFlash s s'
    → start ≤ t
    → (get_lun s c.ppa).next_lun_avail_time ≤ t
    → t ≤ r
    → Returns (λ (u : Unit {0} × Ssd). Advanced s c start (r, u.1)) (set_lun_avail m c.ppa t s')
unfolding set_lun_avail
set_avail-Advanced m s s' c start t r v f hs ha hr = record {
  models = record {
    channels =
        update_all (λ (ch : SsdChannel). IsValid ch.perf_model) s'.ch c.ppa.ch _ v.channels
          (v.channels c.ppa.ch);
    link = v.link;
  };
  sp_same = f.sp_same;
  buffer_same = f.buffer_same;
  after_start =
      omega (arith, ap (λ (l : NandLun). l.next_lun_avail_time) (get_lun-set_lun s' c.ppa l));
  after_busy =
      omega (arith, ap (λ (l : NandLun). l.next_lun_avail_time) (get_lun-set_lun s' c.ppa l));
  completed =
      omega (arith, ap (λ (l : NandLun). l.next_lun_avail_time) (get_lun-set_lun s' c.ppa l));
  planes_same = λ i j k. ground (arith, lun-set_lun s' c.ppa l i j, f.lun_same i j);
  other_dies = λ i j h. lun-set_lun_ne s' c.ppa l i j h ∙ f.lun_same i j;
}
  where
    l : NandLun
    l = record (get_lun s' c.ppa) { next_lun_avail_time = t }

unchanged : (s : Ssd) → SameFlash s s
unchanged s = record { sp_same = refl; lun_same = λ i j. refl; buffer_same = refl }

module _ (m : Machine) where
  -- Setting the time of the die and returning it or a later one, at the end of a command.
  finish-Advanced :
      (s s' : Ssd) (c : NandCmd) (start t r : ℕ)
      → ModelsValid s'
      → SameFlash s s'
      → start ≤ t
      → (get_lun s c.ppa).next_lun_avail_time ≤ t
      → t ≤ r
      → Returns (Advanced s c start) ((set_lun_avail m c.ppa t >>= λ _. return r) s')
  finish-Advanced s s' c start t r v f hs ha hr =
      Returns-elim (λ (u : Unit {0} × Ssd). Advanced s c start (r, u.1)) (Advanced s c start) _ _
        (set_avail-Advanced m s s' c start t r v f hs ha hr) (λ _ u h. h)

  run_nand-Advanced :
      (k : NandCommand) (c : NandCmd) (start : ℕ) (s : Ssd)
      → ((n : ℕ) → k ≢ unsupported n)
      → 0 < c.xfer_size
      → ModelsValid s
      → Fits m s c start
      → Returns (Advanced s c start) (run_nand m k c start s)
  unfolding run_nand
  run_nand-Advanced nand_read c start s hk hx v f =
      Returns-if (Advanced s c start) (c.xfer_size == 0) _ _ (λ e. absurd (ground arith))
        λ _.
          Returns-elim (ReadDone m s nand_etime) (Advanced s c start) _ _
            (read_transfer-ReadDone m c.xfer_size c c.xfer_size nand_etime nand_etime s
              (omega arith) f.chunk v (omega arith)
              (omega (arith, f.xfer_fits, f.read_fits, f.start_fits, f.avail_fits)))
            λ r s' d.
              finish-Advanced s s' c start r.0 r.1 d.models d.flash
                (omega (arith, d.not_before, f.read_fits, f.start_fits, f.avail_fits))
                (omega (arith, d.not_before, f.read_fits, f.start_fits, f.avail_fits)) d.completed
    where
      nand_etime : ℕ
      nand_etime = u64 (max (get_lun s c.ppa).next_lun_avail_time start + read_latency m s c)
  run_nand-Advanced nand_write c start s hk hx v f =
      Returns-elim (Transferred s chnl_stime) (Advanced s c start) _ _
        (request_channel-Transferred m s c.ppa chnl_stime c.xfer_size v)
        λ t s' h.
          finish-Advanced s s' c start (u64 (t + write_latency m s c.ppa)) _ h.models h.flash
            (omega (
              arith,
              h.not_before below,
              h.not_late below,
              f.write_fits,
              f.start_fits,
              f.avail_fits,
            ))
            (omega (
              arith,
              h.not_before below,
              h.not_late below,
              f.write_fits,
              f.start_fits,
              f.avail_fits,
            ))
            (omega arith)
    where
      chnl_stime : ℕ
      chnl_stime = max (get_lun s c.ppa).next_lun_avail_time start

      below : max (get_lun s c.ppa).next_lun_avail_time start < 2 ^ 63
      below = omega (arith, f.start_fits, f.avail_fits)
  run_nand-Advanced nand_erase c start s hk hx v f =
      finish-Advanced s s c start _ _ v (unchanged s)
        (omega (arith, f.erase_fits, f.start_fits, f.avail_fits))
        (omega (arith, f.erase_fits, f.start_fits, f.avail_fits)) (omega arith)
  run_nand-Advanced nand_nop c start s hk hx v f =
      finish-Advanced s s c start _ _ v (unchanged s) (omega arith) (omega arith) (omega arith)
  run_nand-Advanced (unsupported n) c start s hk hx v f = absurd (hk n refl)

  -- A read, write, erase or empty command to a mapped address, with an explicit start time and a
  -- positive size, always completes, while the channel models are well formed, the times below
  -- 2^61, the latencies below 2^32 and the size below 2^28. Then its die is busy at least until
  -- its start time and its old time, the completion is no earlier than that, the channel models
  -- stay well formed, and the parameters, the write buffer, every other die and the pages of
  -- every die are as before.
  pub ssd_advance_nand-Advanced :
      (c : NandCmd) (s : Ssd)
      → ((n : ℕ) → c.cmd ≢ unsupported n)
      → 0 < c.xfer_size
      → 0 < c.stime
      → mapped_ppa c.ppa ≡ true
      → ModelsValid s
      → Fits m s c c.stime
      → Returns (Advanced s c c.stime) (ssd_advance_nand m c s)
  unfolding ssd_advance_nand
  ssd_advance_nand-Advanced c s hk hx hs hm v f =
      rw (hm, timed) (run_nand-Advanced c.cmd c c.stime s hk hx v f)
    where
      timed : (c.stime == 0) ≡ false
      timed = ground arith

  -- A command to the unmapped address takes no time and changes nothing; one whose start time is 0
  -- only reads the clock.
  pub ssd_advance_nand_unmapped :
      (c : NandCmd) (s : Ssd)
      → mapped_ppa c.ppa ≡ false
      → ssd_advance_nand m c s
        ≡ some (
            if c.stime == 0
            then (m.cpu_clock s.reads, record s { reads = s.reads + 1 })
            else (c.stime, s))
  unfolding ssd_advance_nand read_cpu_clock
  ssd_advance_nand_unmapped c s hm = elim (Bool-cases (c.stime == 0)) [
    | inl e ↦ rw (e, hm)
    | inr e ↦ rw (e, hm)
  ]
