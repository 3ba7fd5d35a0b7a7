-- ===== src/Nand/Advance.antt =====
-- The timing of ssd.c: `ssd_advance_pcie`, `ssd_advance_write_buffer`, `ssd_advance_nand` and
-- `ssd_next_idle_time`. Times are `uint64_t` nanoseconds.
use nvmevirt_slc_cache.Common.{
  ℕ, zero, suc, ◌+◌, ◌-◌, ◌*◌, ◌/◌, min, max, Bool, false, none, some, ltb, ◌==◌, if◌then◌else◌,
  u64, St, ◌>>=◌, ◌>>◌, return, get, kb,
}
use nvmevirt_slc_cache.Channel.{chmodel_request}
use nvmevirt_slc_cache.Ppa.{Ppa, get_cell, mapped_ppa}
use nvmevirt_slc_cache.Nand.State.{
  SsdChannel, Ssd, Machine, read_cpu_clock, get_lun, set_lun, set_ch,
}

-- The commands, and any other number.
pub data NandCommand : Type 0 where
  nand_read nand_write nand_erase nand_nop : NandCommand
  unsupported : ℕ → NandCommand

-- `struct nand_cmd`. Its member `type` (user or collector) is read nowhere, and left out.
pub record NandCmd : Type 0 where
  pub cmd : NandCommand
  pub xfer_size : ℕ
  pub stime : ℕ
  pub interleave_pci_dma : Bool
  pub ppa : Ppa

module _ (m : Machine) where
  -- `chmodel_request` on the model of a channel; it reads the clock first.
  unfoldable pub request_channel : Ppa → ℕ → ℕ → St Ssd ℕ
  unfolding read_cpu_clock set_ch
  request_channel p time length s =
      elim (chmodel_request (s.ch p.ch).perf_model (m.cpu_clock s.reads) time length) [
        | none ↦ none
        | some (t, model) ↦ some (
          t,
          set_ch (record s { reads = s.reads + 1 }) p (record (s.ch p.ch) { perf_model = model }),
        )
      ]

  unfoldable pub ssd_advance_pcie : ℕ → ℕ → St Ssd ℕ
  ssd_advance_pcie time length s = elim (chmodel_request s.pcie (m.cpu_clock s.reads) time length) [
    | none ↦ none
    | some (t, model) ↦ some (t, record s { reads = s.reads + 1; pcie = model })
  ]

  unfoldable pub ssd_advance_write_buffer : ℕ → ℕ → St Ssd ℕ
  unfolding ssd_advance_pcie
  ssd_advance_write_buffer time length s =
      ssd_advance_pcie
        (u64
          (u64 (time + s.sp.fw_wbuf_lat0) + s.sp.fw_wbuf_lat1 * (u64 (length + kb 4 - 1) / kb 4)))
        length s

  -- Whether a block lies in the SLC cache.
  abbrev pub in_slc : Ssd → Ppa → Bool
  in_slc s p = if m.config.enable_slc_cache then ltb p.blk s.sp.tt_lines_slc else false

  unfoldable pub read_latency : Ssd → NandCmd → ℕ
  read_latency s c =
      if c.xfer_size == 4096
      then (if in_slc s c.ppa
          then s.sp.pg_4kb_rd_lat_slc
          else s.sp.pg_4kb_rd_lat (get_cell s.sp c.ppa))
      else (if in_slc s c.ppa then s.sp.pg_rd_lat_slc else s.sp.pg_rd_lat (get_cell s.sp c.ppa))

  unfoldable pub write_latency : Ssd → Ppa → ℕ
  write_latency s p = if in_slc s p then s.sp.pg_wr_lat_slc else s.sp.pg_wr_lat

  unfoldable pub erase_latency : Ssd → Ppa → ℕ
  erase_latency s p = if in_slc s p then s.sp.blk_er_lat_slc else s.sp.blk_er_lat

  -- The `while (remaining)` loop of a read, on fuel. It gives `chnl_etime` and `completed_time`,
  -- which are the arguments `etime` and `done` if nothing remains.
  unfoldable pub read_transfer : ℕ → NandCmd → ℕ → ℕ → ℕ → St Ssd (ℕ × ℕ)
  unfolding request_channel ssd_advance_pcie
  read_transfer zero c remaining etime done s =
      if remaining == 0 then some ((etime, done), s) else none
  read_transfer (suc fuel) c remaining etime done s =
      let xfer_size = min remaining s.sp.max_ch_xfer_size in
      let round : St Ssd (ℕ × ℕ) = do
        chnl_etime ← request_channel c.ppa etime xfer_size
        completed ←
            (if c.interleave_pci_dma
              then ssd_advance_pcie chnl_etime xfer_size
              else return chnl_etime)
        read_transfer fuel c (remaining - xfer_size) chnl_etime completed
      in if remaining == 0 then some ((etime, done), s) else round s

  unfoldable pub set_lun_avail : Ppa → ℕ → St Ssd (Unit {0})
  unfolding get_lun set_lun
  set_lun_avail p t s = some (tt, set_lun s p (record (get_lun s p) { next_lun_avail_time = t }))

  -- The `switch` of `ssd_advance_nand`. A read of nothing uses values that were never set.
  unfoldable pub run_nand : NandCommand → NandCmd → ℕ → St Ssd ℕ
  unfolding read_latency write_latency erase_latency read_transfer set_lun_avail
  run_nand nand_read c cmd_stime s =
      let nand_stime = max (get_lun s c.ppa).next_lun_avail_time cmd_stime in
      let nand_etime = u64 (nand_stime + read_latency s c) in
      let run : St Ssd ℕ = do
        (etime, completed) ← read_transfer c.xfer_size c c.xfer_size nand_etime nand_etime
        set_lun_avail c.ppa etime
        return completed
      in if c.xfer_size == 0 then none else run s
  run_nand nand_write c cmd_stime s =
      let chnl_stime = max (get_lun s c.ppa).next_lun_avail_time cmd_stime in
      let run : St Ssd ℕ = do
        chnl_etime ← request_channel c.ppa chnl_stime c.xfer_size
        let nand_etime = u64 (chnl_etime + write_latency s c.ppa)
        set_lun_avail c.ppa nand_etime
        return nand_etime
      in run s
  run_nand nand_erase c cmd_stime s =
      let nand_etime =
        u64 (max (get_lun s c.ppa).next_lun_avail_time cmd_stime + erase_latency s c.ppa) in
      (set_lun_avail c.ppa nand_etime >> return nand_etime) s
  run_nand nand_nop c cmd_stime s =
      let nand_stime = max (get_lun s c.ppa).next_lun_avail_time cmd_stime in
      (set_lun_avail c.ppa nand_stime >> return nand_stime) s
  run_nand (unsupported n) c cmd_stime s = some (0, s)

  -- A command with start time 0 starts now. An unmapped address takes no time.
  unfoldable pub ssd_advance_nand : NandCmd → St Ssd ℕ
  unfolding run_nand read_cpu_clock
  ssd_advance_nand c = do
    cmd_stime ← (if c.stime == 0 then read_cpu_clock m else return c.stime)
    if mapped_ppa c.ppa then run_nand c.cmd c cmd_stime else return cmd_stime

  -- The latest time at which a die of a channel is free, over the dies `0 … n - 1`.
  unfoldable pub latest_lun : SsdChannel → ℕ → ℕ → ℕ
  latest_lun ch zero latest = latest
  latest_lun ch (suc n) latest = max (latest_lun ch n latest) (ch.lun n).next_lun_avail_time

  unfoldable pub latest_ch : Ssd → ℕ → ℕ → ℕ
  unfolding latest_lun
  latest_ch s zero latest = latest
  latest_ch s (suc n) latest = latest_lun (s.ch n) s.sp.luns_per_ch (latest_ch s n latest)

  unfoldable pub ssd_next_idle_time : St Ssd ℕ
  unfolding latest_ch read_cpu_clock
  ssd_next_idle_time = do now ← read_cpu_clock m; s ← get; return (latest_ch s s.sp.nchs now)
