-- ===== src/Zns/WriteLoops.antt =====
-- The loop of a write over flash pages ends, and leaves the zones alone.
use nvmevirt_slc_cache.Common.{
  ℕ, zero, suc, ◌+◌, ◌-◌, ◌*◌, ◌%◌, ◌^◌, ◌≤◌, ◌<◌, ◌≡◌, refl, arith, true, ◌||◌, ◌==◌, leb, u64,
  sub64, Returns, Returns-if, Returns-mono, Returns-elim,
}
use nvmevirt_slc_cache.Ppa.{Ppa}
use nvmevirt_slc_cache.Nand.{Machine, nand_write, ssd_advance_write_buffer}
use nvmevirt_slc_cache.Nand.Timing.{ModelsValid}
use nvmevirt_slc_cache.Zns.State.{success, BufferRef, ZnsFtl}
use nvmevirt_slc_cache.Zns.Zones.{lba_to_lpn}
use nvmevirt_slc_cache.Zns.Access.{
  ZoneRequest, ZoneResult, nr_lbas, lpn_to_ppa, schedule, round_pgs, write_wordline,
}
use nvmevirt_slc_cache.Zns.Write.{Writing, bufs_to_release, write_round, write_pages, write_zone}
use nvmevirt_slc_cache.Zns.Loops.{
  IsDrive, SameZones, KeepsZones, SameZones-trans, same_zones, round_pgs_pos, some_bytes, inner_cmd,
  flash-SameZones, transfer-SameZones,
}

module _ (m : Machine) where
  write_wordline-SameZones :
      (p : Ppa) (stime : ℕ) (z : ZnsFtl)
      → IsDrive z.ssd.sp
      → ModelsValid z.ssd
      → Returns (KeepsZones z) (write_wordline m p stime z)
  unfolding write_wordline
  write_wordline-SameZones p stime z d v =
      flash-SameZones m (inner_cmd nand_write (z.ssd.sp.pgs_per_oneshotpg * z.ssd.sp.pgsz) stime p)
        z (some_bytes z.ssd.sp.pgs_per_oneshotpg z.ssd.sp.pgsz d.oneshotpg d.page) d v

  schedule-SameZones :
      (sq_id target : ℕ) (buffer : BufferRef) (amount : ℕ) (z t : ZnsFtl)
      → SameZones z t
      → SameZones z (schedule sq_id target buffer amount t)
  unfolding schedule
  schedule-SameZones sq_id target buffer amount z t h = record {
    params = h.params;
    resources = h.resources;
    descs = h.descs;
    bytes = h.bytes;
    drive = h.drive;
  }

  write_round-SameZones :
      (w : Writing) (lpn pgs latest : ℕ) (z : ZnsFtl)
      → IsDrive z.ssd.sp
      → ModelsValid z.ssd
      → Returns (KeepsZones z) (write_round m w lpn pgs latest z)
  unfolding write_round
  write_round-SameZones w lpn pgs latest z d v =
      Returns-if (KeepsZones {A = ℕ} z)
        ((lpn_to_ppa z lpn).pg % z.ssd.sp.pgs_per_oneshotpg + pgs == z.ssd.sp.pgs_per_oneshotpg
          || lpn + pgs - 1 == w.zone_elpn)
        _ _
        (λ _.
          Returns-elim (KeepsZones {A = ℕ} z) (KeepsZones {A = ℕ} z)
            (write_wordline m (lpn_to_ppa z lpn) w.stime z) _
            (write_wordline-SameZones (lpn_to_ppa z lpn) w.stime z d v)
            λ done t h.
              schedule-SameZones w.sq_id done w.buffer
                (bufs_to_release t (lpn + pgs - 1 == w.zone_elpn)) z t h)
        λ _. same_zones z v

  -- With fuel for every page, the loop of a write ends.
  write_pages-SameZones :
      (fuel : ℕ) (w : Writing) (lpn latest : ℕ) (z : ZnsFtl)
      → w.elpn + 1 ≤ lpn + fuel
      → IsDrive z.ssd.sp
      → ModelsValid z.ssd
      → Returns (KeepsZones z) (write_pages m fuel w lpn latest z)
  unfolding write_pages
  write_pages-SameZones zero w lpn latest z f d v =
      Returns-if (KeepsZones z) (leb lpn w.elpn) _ _ (λ e. absurd (ground arith))
        λ _. same_zones z v
  write_pages-SameZones (suc fuel) w lpn latest z f d v =
      Returns-if (KeepsZones z) (leb lpn w.elpn) _ _
        (λ e.
          Returns-elim (KeepsZones z) (KeepsZones z) _ _
            (write_round-SameZones w lpn pgs latest z d v)
            λ t u h.
              Returns-mono (KeepsZones u) (KeepsZones z) (λ r k. SameZones-trans h k) _
                (write_pages-SameZones fuel w (lpn + pgs) t u
                  (omega (arith, f, below e, some_pages)) (rw h.drive.sp_same d) h.drive.models))
        λ _. same_zones z v
    where
      pgs : ℕ
      pgs = round_pgs z.ssd.sp.pgs_per_oneshotpg (lpn_to_ppa z lpn).pg (w.elpn - lpn + 1)

      some_pages : (0 < pgs) × (pgs ≤ w.elpn - lpn + 1)
      some_pages =
          round_pgs_pos z.ssd.sp.pgs_per_oneshotpg (lpn_to_ppa z lpn).pg (w.elpn - lpn + 1)
            d.oneshotpg (omega arith)

      below : leb lpn w.elpn ≡ true → lpn ≤ w.elpn
      below e = ground arith

  -- The transfer and the flash writes of a write that passed its checks.
  pub write_zone-SameZones :
      (q : ZoneRequest) (zid slba : ℕ) (buffer : BufferRef) (z : ZnsFtl)
      → IsDrive z.ssd.sp
      → ModelsValid z.ssd
      → Returns (λ r. (r.0.status ≡ success) × SameZones z r.1) (write_zone m q zid slba buffer z)
  unfolding write_zone ssd_advance_write_buffer
  write_zone-SameZones q zid slba buffer z d v =
      Returns-elim (KeepsZones z) Ended _ _
        (transfer-SameZones m _ (u64 (nr_lbas q * 2 ^ m.config.lba_bits)) z v)
        λ transferred t h.
          Returns-elim (KeepsZones t) Ended _ _
            (write_pages-SameZones (last + 1 - first) _ first transferred t (omega arith)
              (rw h.drive.sp_same d) h.drive.models)
            λ latest u k. (refl, SameZones-trans h k)
    where
      Ended : ZoneResult × ZnsFtl → Type 0
      Ended r = (r.0.status ≡ success) × SameZones z r.1

      first : ℕ
      first = lba_to_lpn z slba

      last : ℕ
      last = lba_to_lpn z (sub64 (u64 (slba + nr_lbas q)) 1)
