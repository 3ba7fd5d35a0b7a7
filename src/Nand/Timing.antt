-- ===== src/Nand/Timing.antt =====
-- What a flash command does to the time of its die, and what it leaves alone.
use nvmevirt_slc_cache.Common.{
  ℕ, zero, suc, ◌+◌, ◌-◌, ◌*◌, ◌^◌, ◌≤◌, ◌<◌, ◌≡◌, refl, ◌∙◌, min, Bool, true, false, arith, ◌==◌,
  if◌then◌else◌, update_all, Returns, Returns-if, Returns-mono, Returns-elim, return,
}
use nvmevirt_slc_cache.Channel.Invariant.{IsValid, Requested, chmodel_request-Requested}
use nvmevirt_slc_cache.Ppa.{Ppa}
use nvmevirt_slc_cache.Nand.State.{SsdChannel, Ssd, Machine}
use nvmevirt_slc_cache.Nand.Advance.{NandCmd, request_channel, ssd_advance_pcie, read_transfer}

-- Every channel model of the drive is well formed.
pub record ModelsValid (s : Ssd) : Type 0 where
  pub channels : (i : ℕ) → IsValid (s.ch i).perf_model
  pub link : IsValid s.pcie

-- Parameters, dies and pages stand as they did: only channel models and the count of clock
-- readings may have changed.
pub record SameFlash (s s' : Ssd) : Type 0 where
  pub sp_same : s'.sp ≡ s.sp
  pub lun_same : (i j : ℕ) → (s'.ch i).lun j ≡ (s.ch i).lun j
  pub buffer_same : s'.write_buffer ≡ s.write_buffer

-- What a transfer that starts at `time` leaves.
pub record Transferred (s : Ssd) (time : ℕ) (r : ℕ × Ssd) : Type 0 where
  pub models : ModelsValid r.1
  pub flash : SameFlash s r.1
  pub not_before : time < 2 ^ 63 → time ≤ r.0
  pub not_late : time < 2 ^ 63 → r.0 ≤ time + 2 ^ 33

module _ (m : Machine) where
  pub request_channel-Transferred :
      (s : Ssd) (p : Ppa) (time length : ℕ)
      → ModelsValid s
      → Returns (Transferred s time) (request_channel m p time length s)
  unfolding request_channel
  request_channel-Transferred s p time length v =
      Returns-elim (Requested time) (Transferred s time) _ _
        (chmodel_request-Requested (s.ch p.ch).perf_model (m.cpu_clock s.reads) time length
          (v.channels p.ch))
        λ t model r. record {
          models = record {
            channels =
                update_all (λ (ch : SsdChannel). IsValid ch.perf_model) s.ch p.ch _ v.channels
                  r.valid;
            link = v.link;
          };
          flash = record { sp_same = refl; lun_same = λ i j. ground arith; buffer_same = refl };
          not_before = r.not_before;
          not_late = r.not_late;
        }

  pub ssd_advance_pcie-Transferred :
      (s : Ssd) (time length : ℕ)
      → ModelsValid s
      → Returns (Transferred s time) (ssd_advance_pcie m time length s)
  unfolding ssd_advance_pcie
  ssd_advance_pcie-Transferred s time length v =
      Returns-elim (Requested time) (Transferred s time) _ _
        (chmodel_request-Requested s.pcie (m.cpu_clock s.reads) time length v.link)
        λ t model r. record {
          models = record { channels = v.channels; link = r.valid };
          flash = record { sp_same = refl; lun_same = λ i j. refl; buffer_same = refl };
          not_before = r.not_before;
          not_late = r.not_late;
        }

  -- What the transfer loop of a read leaves: `r.0` is `chnl_etime` with `completed_time`.
  pub record ReadDone (s : Ssd) (etime : ℕ) (r : (ℕ × ℕ) × Ssd) : Type 0 where
    pub models : ModelsValid r.1
    pub flash : SameFlash s r.1
    pub not_before : etime ≤ r.0.0
    pub completed : r.0.0 ≤ r.0.1

  SameFlash-trans : {s t u : Ssd} → SameFlash s t → SameFlash t u → SameFlash s u
  SameFlash-trans h k = record {
    sp_same = k.sp_same ∙ h.sp_same;
    lun_same = λ i j. k.lun_same i j ∙ h.lun_same i j;
    buffer_same = k.buffer_same ∙ h.buffer_same;
  }

  -- The `completed_time` of one round.
  round_completed :
      (interleave : Bool) (s : Ssd) (time length : ℕ)
      → ModelsValid s
      → Returns
          (Transferred s time)
          ((if interleave then ssd_advance_pcie m time length else return time) s)
  round_completed true s time length v = ssd_advance_pcie-Transferred s time length v
  round_completed false s time length v = record {
    models = v;
    flash = record { sp_same = refl; lun_same = λ i j. refl; buffer_same = refl };
    not_before = λ h. omega arith;
    not_late = λ h. omega arith;
  }

  pub read_transfer-ReadDone :
      (fuel : ℕ) (c : NandCmd) (remaining etime done : ℕ) (s : Ssd)
      → remaining ≤ fuel
      → 0 < s.sp.max_ch_xfer_size
      → ModelsValid s
      → etime ≤ done
      → etime + fuel * 2 ^ 33 < 2 ^ 63
      → Returns (ReadDone s etime) (read_transfer m fuel c remaining etime done s)
  unfolding read_transfer
  read_transfer-ReadDone zero c remaining etime done s hf hx v hd ht =
      Returns-if (ReadDone s etime) (remaining == 0) _ _
        (λ _. record {
          models = v;
          flash = record { sp_same = refl; lun_same = λ i j. refl; buffer_same = refl };
          not_before = omega arith;
          completed = hd;
        })
        (λ e. absurd (ground arith))
  read_transfer-ReadDone (suc fuel) c remaining etime done s hf hx v hd ht =
      Returns-if (ReadDone s etime) (remaining == 0) _ _
        (λ _. record {
          models = v;
          flash = record { sp_same = refl; lun_same = λ i j. refl; buffer_same = refl };
          not_before = omega arith;
          completed = hd;
        })
        λ busy.
          Returns-elim (Transferred s etime) (ReadDone s etime) _ _
            (request_channel-Transferred s c.ppa etime xfer_size v)
            λ t s' h.
              Returns-elim (Transferred s' t) (ReadDone s etime) _ _
                (round_completed c.interleave_pci_dma s' t xfer_size h.models)
                λ u s'' k.
                  Returns-mono (ReadDone s'' t) (ReadDone s etime)
                    (λ r d. record {
                      models = d.models;
                      flash = SameFlash-trans (SameFlash-trans h.flash k.flash) d.flash;
                      not_before = omega (arith, h.not_before, d.not_before);
                      completed = d.completed;
                    })
                    _
                    (read_transfer-ReadDone fuel c (remaining - xfer_size) t u s'' (ground arith)
                      (rw (k.flash.sp_same, h.flash.sp_same) hx) k.models
                      (omega (arith, k.not_before, h.not_late)) (omega (arith, h.not_late)))
    where
      xfer_size : ℕ
      xfer_size = min remaining s.sp.max_ch_xfer_size
