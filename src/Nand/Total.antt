-- ===== src/Nand/Total.antt =====
-- Every flash command completes, whatever the times and sizes: the loop of a read ends.
use nvmevirt_slc_cache.Common.{
  ℕ, zero, suc, ◌+◌, ◌-◌, ◌≤◌, ◌<◌, ◌≡◌, refl, ◌∙◌, min, max, Bool, true, false, arith, ◌==◌,
  if◌then◌else◌, u64, update_all, Returns, Returns-if, Returns-mono, Returns-elim, return, ◌>>=◌,
}
use nvmevirt_slc_cache.Channel.Invariant.{IsValid}
use nvmevirt_slc_cache.Ppa.{Ppa, mapped_ppa}
use nvmevirt_slc_cache.Nand.State.{SsdChannel, Ssd, Machine, read_cpu_clock, get_lun}
use nvmevirt_slc_cache.Nand.Advance.{
  NandCmd, NandCommand, nand_read, nand_write, nand_erase, nand_nop, unsupported, request_channel,
  ssd_advance_pcie, read_transfer, set_lun_avail, run_nand, ssd_advance_nand, read_latency,
  write_latency, erase_latency,
}
use nvmevirt_slc_cache.Nand.Timing.{
  ModelsValid, Transferred, request_channel-Transferred, ssd_advance_pcie-Transferred,
}

-- What no flash command and no transfer changes.
pub record Kept (s s' : Ssd) : Type 0 where
  pub models : ModelsValid s'
  pub sp_same : s'.sp ≡ s.sp
  pub buffer_same : s'.write_buffer ≡ s.write_buffer

-- The result of an operation that keeps the drive.
abbrev pub Keeps : {A : Type 0} → Ssd → A × Ssd → Type 0
Keeps s r = Kept s r.1

pub unchanged-Kept : (s : Ssd) → ModelsValid s → Kept s s
unchanged-Kept s v = record { models = v; sp_same = refl; buffer_same = refl }

pub Kept-trans : {s t u : Ssd} → Kept s t → Kept t u → Kept s u
Kept-trans h k = record {
  models = k.models;
  sp_same = k.sp_same ∙ h.sp_same;
  buffer_same = k.buffer_same ∙ h.buffer_same;
}

Transferred-Kept : (s : Ssd) (time : ℕ) (r : ℕ × Ssd) → Transferred s time r → Keeps s r
Transferred-Kept s time r h = record {
  models = h.models;
  sp_same = h.flash.sp_same;
  buffer_same = h.flash.buffer_same;
}

module _ (m : Machine) where
  pub ssd_advance_pcie-Kept :
      (s : Ssd) (time length : ℕ)
      → ModelsValid s
      → Returns (Keeps s) (ssd_advance_pcie m time length s)
  ssd_advance_pcie-Kept s time length v =
      Returns-mono (Transferred s time) (Keeps s) (Transferred-Kept s time) _
        (ssd_advance_pcie-Transferred m s time length v)

  request_channel-Kept :
      (s : Ssd) (p : Ppa) (time length : ℕ)
      → ModelsValid s
      → Returns (Keeps s) (request_channel m p time length s)
  request_channel-Kept s p time length v =
      Returns-mono (Transferred s time) (Keeps s) (Transferred-Kept s time) _
        (request_channel-Transferred m s p time length v)

  interleave-Kept :
      (b : Bool) (s : Ssd) (time length : ℕ)
      → ModelsValid s
      → Returns (Keeps s) ((if b then ssd_advance_pcie m time length else return time) s)
  interleave-Kept true s time length v = ssd_advance_pcie-Kept s time length v
  interleave-Kept false s time length v = unchanged-Kept s v

  read_transfer-Kept :
      (fuel : ℕ) (c : NandCmd) (remaining etime done : ℕ) (s : Ssd)
      → remaining ≤ fuel
      → 0 < s.sp.max_ch_xfer_size
      → ModelsValid s
      → Returns (Keeps s) (read_transfer m fuel c remaining etime done s)
  unfolding read_transfer
  read_transfer-Kept zero c remaining etime done s f x v =
      Returns-if (Keeps s) (remaining == 0) _ _ (λ _. unchanged-Kept s v)
        (λ e. absurd (ground arith))
  read_transfer-Kept (suc fuel) c remaining etime done s f x v =
      Returns-if (Keeps s) (remaining == 0) _ _ (λ _. unchanged-Kept s v)
        λ busy.
          Returns-elim (Keeps s) (Keeps s) _ _ (request_channel-Kept s c.ppa etime size v) λ t s' h.
            Returns-elim (Keeps s') (Keeps s) _ _
              (interleave-Kept c.interleave_pci_dma s' t size h.models)
              λ u s'' k.
                Returns-mono (Keeps s'') (Keeps s) (λ r d. Kept-trans (Kept-trans h k) d) _
                  (read_transfer-Kept fuel c (remaining - size) t u s'' (ground arith)
                    (rw (k.sp_same, h.sp_same) x) k.models)
    where
      size : ℕ
      size = min remaining s.sp.max_ch_xfer_size

  avail-Kept :
      (p : Ppa) (t r : ℕ) (s s' : Ssd)
      → Kept s s'
      → Returns (Keeps s) ((set_lun_avail m p t >>= λ _. return r) s')
  unfolding set_lun_avail
  avail-Kept p t r s s' k = record {
    models = record {
      channels =
          update_all (λ (ch : SsdChannel). IsValid ch.perf_model) s'.ch p.ch _ k.models.channels
            (k.models.channels p.ch);
      link = k.models.link;
    };
    sp_same = k.sp_same;
    buffer_same = k.buffer_same;
  }

  run_nand-Kept :
      (k : NandCommand) (c : NandCmd) (start : ℕ) (s : Ssd)
      → 0 < c.xfer_size
      → 0 < s.sp.max_ch_xfer_size
      → ModelsValid s
      → Returns (Keeps s) (run_nand m k c start s)
  unfolding run_nand
  run_nand-Kept nand_read c start s p x v =
      Returns-if (Keeps s) (c.xfer_size == 0) _ _ (λ e. absurd (ground arith))
        λ _.
          Returns-elim (Keeps s) (Keeps s) _ _
            (read_transfer-Kept c.xfer_size c c.xfer_size etime etime s (omega arith) x v)
            λ r s' h. avail-Kept c.ppa r.0 r.1 s s' h
    where
      etime : ℕ
      etime = u64 (max (get_lun s c.ppa).next_lun_avail_time start + read_latency m s c)
  run_nand-Kept nand_write c start s p x v =
      Returns-elim (Keeps s) (Keeps s) _ _
        (request_channel-Kept s c.ppa (max (get_lun s c.ppa).next_lun_avail_time start) c.xfer_size
          v)
        λ t s' h.
          avail-Kept c.ppa (u64 (t + write_latency m s c.ppa)) (u64 (t + write_latency m s c.ppa)) s
            s' h
  run_nand-Kept nand_erase c start s p x v =
      let t : ℕ = u64 (max (get_lun s c.ppa).next_lun_avail_time start + erase_latency m s c.ppa) in
      avail-Kept c.ppa t t s s (unchanged-Kept s v)
  run_nand-Kept nand_nop c start s p x v =
      let t : ℕ = max (get_lun s c.ppa).next_lun_avail_time start in
      avail-Kept c.ppa t t s s (unchanged-Kept s v)
  run_nand-Kept (unsupported n) c start s p x v = unchanged-Kept s v

  clock-Kept :
      (b : Bool) (n : ℕ) (s : Ssd)
      → ModelsValid s
      → Returns (Keeps s) ((if b then read_cpu_clock m else return n) s)
  unfolding read_cpu_clock
  clock-Kept true n s v = record {
    models = record { channels = v.channels; link = v.link };
    sp_same = refl;
    buffer_same = refl;
  }
  clock-Kept false n s v = unchanged-Kept s v

  -- Every command of a positive size completes, and keeps the parameters, the write buffer and the
  -- channel models well formed.
  pub ssd_advance_nand-Kept :
      (c : NandCmd) (s : Ssd)
      → 0 < c.xfer_size
      → 0 < s.sp.max_ch_xfer_size
      → ModelsValid s
      → Returns (Keeps s) (ssd_advance_nand m c s)
  unfolding ssd_advance_nand
  ssd_advance_nand-Kept c s p x v =
      Returns-elim (Keeps s) (Keeps s) _ _ (clock-Kept (c.stime == 0) c.stime s v)
        λ t s' h. mapped (mapped_ppa c.ppa) t s' h
    where
      mapped :
          (b : Bool) (t : ℕ) (s' : Ssd)
          → Kept s s'
          → Returns (Keeps s) ((if b then run_nand m c.cmd c t else return t) s')
      mapped true t s' h =
          Returns-mono (Keeps s') (Keeps s) (λ r k. Kept-trans h k) _
            (run_nand-Kept c.cmd c t s' p (rw h.sp_same x) h.models)
      mapped false t s' h = h
